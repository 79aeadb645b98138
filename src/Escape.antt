-- ===== src/Escape.antt =====
-- Escaping of strings, pkg/misc/escape.go. A string is the list of its runes.
pub mod RoundTrip
mod Examples
use dbpack.Common.{
  ℕ, ◌/◌, ◌%◌, List, [], ◌∷◌, ◌++◌, Bool, true, false, not, ◌&&◌, ◌||◌, ◌==◌, if◌then◌else◌,
}

abbrev pub Runes : Type 0
Runes = List ℕ

-- An `EscapeFlag`, a uint8. The constants are counted up from 1, so that `EscapeLike` has both bits
-- of the flags for quotes.
abbrev pub EscapeFlag : Type 0
EscapeFlag = ℕ

abbrev pub escape_single_quote : EscapeFlag
escape_single_quote = 1

abbrev pub escape_double_quote : EscapeFlag
escape_double_quote = 2

abbrev pub escape_like : EscapeFlag
escape_like = 3

-- `flag&EscapeSingleQuote != 0`, `flag&EscapeDoubleQuote != 0`, and `flag&EscapeLike != 0`.
unfoldable pub has_single_quote : EscapeFlag → Bool
has_single_quote flag = flag % 2 == 1

unfoldable pub has_double_quote : EscapeFlag → Bool
has_double_quote flag = flag / 2 % 2 == 1

unfoldable pub has_like : EscapeFlag → Bool
has_like flag = not (flag % 4 == 0)

abbrev pub backslash : ℕ
backslash = 92

-- The next rune is '%' or '_'.
unfoldable pub is_like_escape : Runes → Bool
is_like_escape [] = false
is_like_escape (d ∷ ds) = d == b'%' || d == b'_'

-- `switch s` of `WriteEscape`, where `input` is what follows the rune.
unfoldable pub escaped : EscapeFlag → ℕ → Runes → Runes
unfolding is_like_escape has_single_quote has_double_quote has_like
escaped flag s input =
    if s == 10
    then backslash ∷ b'n' ∷ []
    else if s == 8
    then backslash ∷ b'b' ∷ []
    else if s == 9
    then backslash ∷ b't' ∷ []
    else if s == 13
    then backslash ∷ b'r' ∷ []
    else if s == backslash
    then (if has_like flag && is_like_escape input
        then backslash ∷ []
        else backslash ∷ backslash ∷ [])
    else if s == 39
    then (if has_single_quote flag then backslash ∷ 39 ∷ [] else 39 ∷ [])
    else if s == 34
    then (if has_double_quote flag then backslash ∷ 34 ∷ [] else 34 ∷ [])
    else s ∷ []

-- `Escape`, by the loop of `WriteEscape`.
unfoldable pub escape : EscapeFlag → Runes → Runes
escape flag [] = []
escape flag (s ∷ input) = escaped flag s input ++ escape flag input

unfoldable pub contains : Runes → ℕ → Bool
contains [] r = false
contains (s ∷ ss) r = s == r || contains ss r

-- `switch r` of `Unescape`, behind a backslash.
unfoldable pub unescaped : Runes → ℕ → Runes
unfolding contains
unescaped ignores r =
    if r == b'b'
    then 8 ∷ []
    else if r == b'n'
    then 10 ∷ []
    else if r == b't'
    then 9 ∷ []
    else if r == b'r'
    then 13 ∷ []
    else if r == b'v'
    then 11 ∷ []
    else if r == 34
    then 34 ∷ []
    else if r == 39
    then 39 ∷ []
    else if contains ignores r
    then backslash ∷ r ∷ []
    else r ∷ []

-- What one round of the loop of `Unescape` writes.
unfoldable pub emitted : Runes → Bool → ℕ → Runes
emitted ignores true r = if r == backslash then backslash ∷ [] else unescaped ignores r
emitted ignores false r = if r == backslash then [] else r ∷ []

-- The loop, with its variable `escape`.
unfoldable pub unescape_from : Runes → Bool → Runes → Runes
unescape_from ignores e [] = []
unescape_from ignores e (r ∷ rs) =
    let rest = unescape_from ignores (r == backslash && not e) rs in emitted ignores e r ++ rest

-- `Unescape`
unfoldable pub unescape : Runes → Runes → Runes
unfolding contains
unescape s ignores = if contains s backslash then unescape_from ignores false s else s
