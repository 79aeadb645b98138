-- ===== src/Uuid/Distinct.antt =====
-- Which numbers of `NextID` are different.
use dbpack.Common.{ℕ, zero, suc, ◌+◌, ◌-◌, ◌*◌, ◌%◌, ◌^◌, ◌<◌, ◌≡◌, ◌≢◌, sym, ◌∙◌, ap, arith}
use dbpack.Common.Int.{pos, pos_part, wrap64}
use native.Mathlib.Nat.{mod-lt}
use dbpack.Uuid.{
  Package, id_of, to_uint64, incremented, next_id, SnowflakeWorker, snowflake_next_id,
}
use dbpack.Uuid.Bits.{bit_or-disjoint, bit_or-odd}

-- The state after a number of calls of `NextID`.
abbrev pub advance : ℕ → Package → Package
advance zero p = p
advance (suc n) p = advance n (next_id p).1

-- The package has the worker id `w`, as `Init` sets it.
abbrev pub HasWorker : ℕ → Package → Type 0
HasWorker w p =
    (w < 2 ^ 10) × (p.worker_id ≡ pos (w * 2 ^ 53)) × (p.timestamp_and_sequence < 2 ^ 64)

id_of-worker :
    (w next : ℕ) → w < 2 ^ 10 → id_of (pos (w * 2 ^ 53)) next ≡ pos (w * 2 ^ 53 + next % 2 ^ 53)
unfolding id_of to_uint64 wrap64
id_of-worker w next h =
    rw (bit_or-disjoint 53 w (next % 2 ^ 53) (mod-lt next (omega arith))) (ground arith)

-- `NextID` is the worker id and the low 53 bits of the counter.
next_id-value :
    (w : ℕ) (p : Package)
    → HasWorker w p
    → (next_id p).0 ≡ pos (w * 2 ^ 53 + (p.timestamp_and_sequence + 1) % 2 ^ 53)
unfolding next_id incremented
next_id-value w p h =
    rw h.1 (id_of-worker w ((p.timestamp_and_sequence + 1) % 2 ^ 64) h.0 ∙ ap pos (omega arith))

advance-HasWorker :
    (n w : ℕ) (p : Package)
    → HasWorker w p
    → HasWorker w (advance n p)
      × ((advance n p).timestamp_and_sequence ≡ (p.timestamp_and_sequence + n) % 2 ^ 64)
advance-HasWorker zero w p h = (h, omega arith)
advance-HasWorker (suc n) w p h =
    let next : HasWorker w (next_id p).1 = unfold next_id incremented in (h.0, h.1, omega arith) in
    let (k, e) = advance-HasWorker n w (next_id p).1 next in
    (k, e ∙ (unfold next_id incremented in omega arith))

-- Where the worker id is below 1024 and shifted as `Init` does, `NextID` after `j` calls and
-- after `k` calls are different, for `j < k < j + 2^53`.
pub next_id-distinct :
    (w j k : ℕ) (p : Package)
    → HasWorker w p
    → j < k
    → k < j + 2 ^ 53
    → (next_id (advance j p)).0 ≢ (next_id (advance k p)).0
next_id-distinct w j k p h l m e =
    let (a, x) = advance-HasWorker j w p h in
    let (b, y) = advance-HasWorker k w p h in
    let same = sym (next_id-value w (advance j p) a) ∙ e ∙ next_id-value w (advance k p) b in
    let parts = ap pos_part same in omega (arith, parts, x, y)

-- Where the worker ids are below 1024, shifted as `Init` does, and different, the numbers that
-- two processes return are different, whatever their counters.
pub next_id-workers :
    (v w : ℕ) (p q : Package)
    → HasWorker v p
    → HasWorker w q
    → v ≢ w
    → (next_id p).0 ≢ (next_id q).0
next_id-workers v w p q h k n e =
    let parts = ap pos_part (sym (next_id-value v p h) ∙ e ∙ next_id-value w q k) in
    n (omega (arith, parts))

-- The numbers of two `SnowflakeWorker`s with equal counters are equal, whatever their worker ids.
pub snowflake_next_id-worker :
    (p : Package) (v w : SnowflakeWorker)
    → v.timestamp_and_sequence ≡ w.timestamp_and_sequence
    → (snowflake_next_id p v).0 ≡ (snowflake_next_id p w).0
unfolding snowflake_next_id
snowflake_next_id-worker p v w e = ap (λ c. id_of p.worker_id (incremented c)) e

odd_worker :
    (m r : ℕ)
    → r * 2 < 2 ^ 53 - 1
    → id_of (pos (suc (m * 2))) (r * 2) ≡ id_of (pos (suc (m * 2))) (suc (r * 2))
unfolding id_of to_uint64
odd_worker m r l =
    let low : r * 2 % 2 ^ 53 ≡ r * 2 = omega arith in
    let low' : suc (r * 2) % 2 ^ 53 ≡ suc (r * 2) = omega arith in rw (low, low', bit_or-odd m r)

-- Where the worker id of the package is odd and the next value of the counter is even and below
-- 2^53 - 1, a `SnowflakeWorker` returns one number twice in a row.
pub snowflake_next_id-repeats :
    (p : Package) (w : SnowflakeWorker) (m r : ℕ)
    → p.worker_id ≡ pos (suc (m * 2))
    → w.timestamp_and_sequence + 1 ≡ r * 2
    → r * 2 < 2 ^ 53 - 1
    → (snowflake_next_id p w).0 ≡ (snowflake_next_id p (snowflake_next_id p w).1).0
unfolding snowflake_next_id
snowflake_next_id-repeats p w m r e c l =
    let one : incremented w.timestamp_and_sequence ≡ r * 2 = unfold incremented in omega arith in
    let two : incremented (r * 2) ≡ suc (r * 2) = unfold incremented in omega arith in
    rw (one, two, e) (odd_worker m r l)
