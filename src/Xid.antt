-- ===== src/Xid.antt =====
-- Global transaction ids: pkg/misc/xid.go, and their text in pkg/dt/transaction_manger.go.
mod Examples
use dbpack.Common.{
  ℕ, zero, suc, ◌+◌, ◌^◌, ◌<◌, ◌≡◌, ◌≢◌, refl, sym, ◌∙◌, ap, List, [], ◌∷◌, ◌++◌, Bool, true, false,
  ◌==◌, if◌then◌else◌, Option, none, some, length, length-append, drop, arith,
}
use mathlib.Core.List.{append_assoc}
use dbpack.Common.Int.{ℤ, pos, negsuc}
use dbpack.Value.{Bytes, all_digits, format_int, parse_int, value_of}
use dbpack.Value.Decimal.{all_digits-format_int, format_int-filled, parse_int-format_int}

-- `strings.LastIndex(xid, "/")`; -1 is none.
unfoldable pub last_index : Bytes → Option ℕ
last_index [] = none
last_index (c ∷ cs) = elim (last_index cs) [
  | some i ↦ some (suc i)
  | none ↦ if c == b'/' then some 0 else none
]

-- `idx + 1`
unfoldable pub behind : Option ℕ → ℕ
behind none = 0
behind (some i) = suc i

-- `GetTransactionID`: the value of ParseInt is used whatever its error.
unfoldable pub get_transaction_id : Bytes → ℤ
unfolding last_index behind value_of
get_transaction_id [] = negsuc 0
get_transaction_id (c ∷ cs) =
    let start = behind (last_index (c ∷ cs)) in
    if length (c ∷ cs) == start then negsuc 0 else value_of (parse_int (drop start (c ∷ cs)))

-- `fmt.Sprintf("gs/%s/%d", applicationID, transactionID)` of `Begin`.
unfoldable pub xid_of : Bytes → ℤ → Bytes
xid_of application id = b'g' ∷ b's' ∷ b'/' ∷ application ++ b'/' ∷ format_int id

last_index-digits : (s : Bytes) → all_digits s ≡ true → last_index s ≡ none
unfolding last_index all_digits
last_index-digits [] h = refl
last_index-digits (c ∷ s) h =
    let rest : last_index s ≡ none = last_index-digits s (ground arith) in rw rest (ground arith)

last_index-append :
    (p t : Bytes) → last_index t ≡ none → last_index (p ++ b'/' ∷ t) ≡ some (length p)
unfolding last_index
last_index-append [] t h = rw h
last_index-append (c ∷ p) t h = rw (last_index-append p t h)

drop-behind : (p t : Bytes) (c : ℕ) → drop (suc (length p)) (p ++ c ∷ t) ≡ t
drop-behind [] t c = refl
drop-behind (d ∷ p) t c = drop-behind p t c

filled-length : (s : Bytes) → s ≢ [] → length s ≢ 0
filled-length [] h e = h refl
filled-length (c ∷ s) h e = omega arith

id_behind :
    (c : ℕ) (cs : Bytes) (k : ℕ) (t : Bytes)
    → last_index (c ∷ cs) ≡ some k
    → drop (suc k) (c ∷ cs) ≡ t
    → length (c ∷ cs) ≢ suc k
    → get_transaction_id (c ∷ cs) ≡ value_of (parse_int t)
unfolding get_transaction_id
id_behind c cs k t e d n =
    let apart : (length (c ∷ cs) == suc k) ≡ false = ground arith in rw (e, apart, d)

-- `GetTransactionID` reads back every transaction id below 2^63 that is not negative from the text
-- that `Begin` makes of it, whatever the application id.
get_transaction_id-xid_of :
    (application : Bytes) (n : ℕ)
    → n < 2 ^ 63
    → get_transaction_id (xid_of application (pos n)) ≡ pos n
unfolding xid_of value_of
get_transaction_id-xid_of application n h =
    let p = b'g' ∷ b's' ∷ b'/' ∷ application in
    let t = format_int (pos n) in
    let last : last_index (p ++ b'/' ∷ t) ≡ some (length p) =
      last_index-append p t (last_index-digits t (all_digits-format_int n h)) in
    let longer : length (p ++ b'/' ∷ t) ≢ suc (length p) =
      omega (arith, length-append p (b'/' ∷ t), filled-length t (format_int-filled n h)) in
    id_behind b'g' (b's' ∷ b'/' ∷ application ++ b'/' ∷ t) (length p) t last (drop-behind p t b'/')
      longer
    ∙ ap value_of (parse_int-format_int (pos n) (h, omega arith))
