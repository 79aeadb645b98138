-- ===== src/Escape/RoundTrip.antt =====
-- `Unescape` of what `Escape` wrote.
use dbpack.Common.{
  ℕ, ◌≡◌, ◌≢◌, refl, sym, ◌∙◌, ap, [], ◌∷◌, ◌++◌, Bool, true, false, ◌&&◌, ◌||◌, ◌==◌,
  if◌then◌else◌, Bool-cases, inl, inr, arith,
}
use dbpack.Escape.{
  Runes, EscapeFlag, has_single_quote, has_double_quote, has_like, backslash, is_like_escape,
  escaped, escape, contains, unescaped, emitted, unescape_from, unescape,
}

-- The runes that `Unescape` has to leave behind a backslash.
abbrev pub ignores_of : EscapeFlag → Runes
ignores_of flag = if has_like flag then b'%' ∷ b'_' ∷ [] else []

unescape-plain :
    (s : Runes) (ignores : Runes) → contains s backslash ≡ false → unescape_from ignores false s ≡ s
unfolding contains unescape_from emitted
unescape-plain [] ignores h = refl
unescape-plain (r ∷ rs) ignores h = ground (arith, unescape-plain rs ignores)

module _ (ignores : Runes) where
  read_plain :
      (r : ℕ) (t : Runes)
      → r ≢ 92
      → unescape_from ignores false (r ∷ t) ≡ r ∷ unescape_from ignores false t
  unfolding unescape_from emitted
  read_plain r t h = ground arith

  read_pair :
      (r : ℕ) (t : Runes)
      → r ≢ 92
      → unescape_from ignores false (92 ∷ r ∷ t)
        ≡ unescaped ignores r ++ unescape_from ignores false t
  unfolding unescape_from emitted
  read_pair r t h = ground arith

  read_backslash :
      (t : Runes) → unescape_from ignores false (92 ∷ 92 ∷ t) ≡ 92 ∷ unescape_from ignores false t
  unfolding unescape_from emitted
  read_backslash t = refl

-- A rune that `Escape` leaves as it is, a pair that `Unescape` knows, and '%' and '_'.
escaped-like :
    (flag : EscapeFlag) (d : ℕ) (ds : Runes)
    → (d == b'%' || d == b'_') ≡ true
    → escaped flag d ds ≡ d ∷ []
unfolding escaped
escaped-like flag d ds h = ground arith

unescaped-ignored :
    (d : ℕ) → (d == b'%' || d == b'_') ≡ true → unescaped (b'%' ∷ b'_' ∷ []) d ≡ 92 ∷ d ∷ []
unfolding unescaped contains
unescaped-ignored d h = ground arith

like-apart : (d : ℕ) → (d == b'%' || d == b'_') ≡ true → d ≢ 92
like-apart d h = ground arith

ignores_like : (flag : EscapeFlag) → has_like flag ≡ true → ignores_of flag ≡ b'%' ∷ b'_' ∷ []
ignores_like flag l = rw l

module _ (flag : EscapeFlag) (s : ℕ) (input : Runes) where
  -- The text of the rune is read back, in front of the escaped rest.
  abbrev IsRead : Runes → Type 0
  IsRead out =
      unescape_from (ignores_of flag) false (out ++ escape flag input)
      ≡ s ∷ unescape_from (ignores_of flag) false (escape flag input)

  IsRead-if :
      (b : Bool) (x y : Runes)
      → (b ≡ true → IsRead x)
      → (b ≡ false → IsRead y)
      → IsRead (if b then x else y)
  IsRead-if true x y h k = h refl
  IsRead-if false x y h k = k refl

  pair-IsRead :
      (r v : ℕ) → unescaped (ignores_of flag) r ≡ v ∷ [] → r ≢ 92 → s ≡ v → IsRead (92 ∷ r ∷ [])
  pair-IsRead r v u n e = read_pair (ignores_of flag) r (escape flag input) n ∙ rw (u, e)

  plain-IsRead : (v : ℕ) → v ≢ 92 → s ≡ v → IsRead (v ∷ [])
  plain-IsRead v n e = read_plain (ignores_of flag) v (escape flag input) n ∙ rw e

  like-IsRead :
      (rest : Runes)
      → rest ≡ input
      → has_like flag ≡ true
      → is_like_escape rest ≡ true
      → s ≡ 92
      → IsRead (92 ∷ [])
  unfolding is_like_escape escape
  like-IsRead [] e l h b = cc
  like-IsRead (d ∷ ds) e l h b =
      let step : escape flag input ≡ d ∷ escape flag ds =
        ap (escape flag) (sym e) ∙ ap (λ x. x ++ escape flag ds) (escaped-like flag d ds h) in
      let known : unescaped (ignores_of flag) d ≡ 92 ∷ d ∷ [] =
        ap (λ g. unescaped g d) (ignores_like flag l) ∙ unescaped-ignored d h in
      rw (step, b)
        (read_pair (ignores_of flag) d (escape flag ds) (like-apart d h)
          ∙ ap (λ x. x ++ unescape_from (ignores_of flag) false (escape flag ds)) known
          ∙ ap (λ x. 92 ∷ x)
              (sym (read_plain (ignores_of flag) d (escape flag ds) (like-apart d h))))

  escaped-IsRead : IsRead (escaped flag s input)
  unfolding escaped unescaped
  escaped-IsRead =
      IsRead-if (s == 10) _ _ (λ e. pair-IsRead 110 10 refl (omega arith) (ground arith))
        (λ a.
          IsRead-if (s == 8) _ _ (λ e. pair-IsRead 98 8 refl (omega arith) (ground arith))
            (λ b.
              IsRead-if (s == 9) _ _ (λ e. pair-IsRead 116 9 refl (omega arith) (ground arith))
                (λ c.
                  IsRead-if (s == 13) _ _
                    (λ e. pair-IsRead 114 13 refl (omega arith) (ground arith))
                    (λ d. IsRead-if (s == 92) _ _ backslash-IsRead (λ n.
                      IsRead-if (s == 39) _ _
                        (λ e.
                          IsRead-if (has_single_quote flag) _ _
                            (λ _. pair-IsRead 39 39 refl (omega arith) (ground arith))
                            (λ _. plain-IsRead 39 (omega arith) (ground arith)))
                        (λ m.
                          IsRead-if (s == 34) _ _
                            (λ e.
                              IsRead-if (has_double_quote flag) _ _
                                (λ _. pair-IsRead 34 34 refl (omega arith) (ground arith))
                                (λ _. plain-IsRead 34 (omega arith) (ground arith)))
                            (λ k. plain-IsRead s (ground arith) refl)))))))
    where
      backslash-IsRead :
          (s == 92) ≡ true
          → IsRead (if has_like flag && is_like_escape input then 92 ∷ [] else 92 ∷ 92 ∷ [])
      backslash-IsRead e =
          IsRead-if (has_like flag && is_like_escape input) _ _
            (λ h. like-IsRead input refl (ground arith) (ground arith) (ground arith))
            (λ h.
              read_backslash (ignores_of flag) (escape flag input)
              ∙ ap (λ x. x ∷ unescape_from (ignores_of flag) false (escape flag input))
                  (ground arith))

unescape_from-escape :
    (flag : EscapeFlag) (s : Runes) → unescape_from (ignores_of flag) false (escape flag s) ≡ s
unfolding escape
unescape_from-escape flag [] = unfold unescape_from in refl
unescape_from-escape flag (s ∷ input) =
    escaped-IsRead flag s input ∙ ap (λ x. s ∷ x) (unescape_from-escape flag input)

-- `Unescape` reads back every string that `Escape` wrote, whatever the flag, where it is told to leave
-- '%' and '_' escaped if the flag has a bit in common with `EscapeLike`, which both flags for quotes
-- have.
pub unescape-escape :
    (flag : EscapeFlag) (s : Runes) → unescape (escape flag s) (ignores_of flag) ≡ s
unfolding unescape
unescape-escape flag s = elim (Bool-cases (contains (escape flag s) backslash)) [
  | inl h ↦ rw h (unescape_from-escape flag s)
  | inr h ↦
      rw h (sym (unescape-plain (escape flag s) (ignores_of flag) h) ∙ unescape_from-escape flag s)
]
