-- ===== src/Escape/Examples.antt =====
-- Runs of `Escape`, and its theorem at a concrete input.
use dbpack.Common.{◌≡◌, refl, [], ◌∷◌}
use dbpack.Escape.{Runes, EscapeFlag, escape_single_quote, escape_like, escape, unescape}
use dbpack.Escape.RoundTrip.{ignores_of, unescape-escape}

abbrev like_flag : EscapeFlag
like_flag = escape_like

abbrev pattern : Runes
pattern = b'%' ∷ 92 ∷ b'%' ∷ 39 ∷ 10 ∷ 92 ∷ []

pattern_run : escape like_flag pattern ≡ b'%' ∷ 92 ∷ b'%' ∷ 92 ∷ 39 ∷ 92 ∷ b'n' ∷ 92 ∷ 92 ∷ []
unfolding escape dbpack.Escape.escaped
pattern_run = refl

unescape-escape_example : unescape (escape like_flag pattern) (ignores_of like_flag) ≡ pattern
unescape-escape_example = unescape-escape like_flag pattern

-- With the flag for single quotes alone '\%' is kept, and `Unescape` without runes to leave reads '%'.
quote_flag_loses : unescape (escape escape_single_quote (92 ∷ b'%' ∷ [])) [] ≡ b'%' ∷ []
unfolding escape dbpack.Escape.escaped unescape dbpack.Escape.unescape_from dbpack.Escape.unescaped
    dbpack.Escape.emitted
quote_flag_loses = refl
