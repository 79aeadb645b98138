-- ===== src/Merge/Ordered/Pass.antt =====
-- The pass over the cells six apart keeps the cells that are sorted.
use dbpack.Common.{
  ◌≡◌, ◌⊎◌, inl, inr, refl, sym, List, [], ◌∷◌, ◌++◌, All, Member, Bool-cases, take, drop,
  take-drop,
}
use mathlib.Core.Path.{subst}
use dbpack.Cond.{ok}
use dbpack.Merge.Ordered.{OrderField, Candidate, swap_cells, sort_cells, sorted_cells, last_of}
use dbpack.Merge.Ordered.Sorting.{IsOrdered, Le, Made, sort_cells-least}

Member-append :
    (x : Candidate) (xs ys : List Candidate) → Member x xs ⊎ Member x ys → Member x (xs ++ ys)
Member-append x [] ys (inl a) = absurd a
Member-append x [] ys (inr b) = b
Member-append x (z ∷ xs) ys (inl (inl a)) = inl a
Member-append x (z ∷ xs) ys (inl (inr a)) = inr (Member-append x xs ys (inl a))
Member-append x (z ∷ xs) ys (inr b) = inr (Member-append x xs ys (inr b))

Member-parts :
    (x : Candidate) (xs ys : List Candidate) → Member x (xs ++ ys) → Member x xs ⊎ Member x ys
Member-parts x [] ys h = inr h
Member-parts x (z ∷ xs) ys (inl a) = inl (inl a)
Member-parts x (z ∷ xs) ys (inr h) = elim (Member-parts x xs ys h) [
  | inl a ↦ inl (inr a)
  | inr b ↦ inr b
]

All-Member :
    (P : Candidate → Type 0) (x : Candidate) (xs : List Candidate) → All P xs → Member x xs → P x
All-Member P x [] h m = absurd m
All-Member P x (z ∷ xs) h (inl e) = subst P (sym e) h.0
All-Member P x (z ∷ xs) h (inr m) = All-Member P x xs h.1 m

Member-All :
    (P : Candidate → Type 0) (xs : List Candidate)
    → ((x : Candidate) → Member x xs → P x)
    → All P xs
Member-All P [] h = tt
Member-All P (z ∷ xs) h = (h z (inl refl), Member-All P xs (λ x m. h x (inr m)))

-- Two pairs of slices with the same cells.
abbrev Same : List Candidate → List Candidate → List Candidate → List Candidate → Type 0
Same fs bs xs ys =
    (z : Candidate)
    → (Member z fs ⊎ Member z bs → Member z xs ⊎ Member z ys)
      × (Member z xs ⊎ Member z ys → Member z fs ⊎ Member z bs)

stays :
    (f b : Candidate) (fs bs xs ys : List Candidate)
    → Same fs bs xs ys
    → Same (f ∷ fs) (b ∷ bs) (f ∷ xs) (b ∷ ys)
stays f b fs bs xs ys s z = let (to, of) = s z in (both f b fs bs xs ys to, both f b xs ys fs bs of)
  where
    both :
        (f b : Candidate) (fs bs xs ys : List Candidate)
        → (Member z fs ⊎ Member z bs → Member z xs ⊎ Member z ys)
        → Member z (f ∷ fs) ⊎ Member z (b ∷ bs)
        → Member z (f ∷ xs) ⊎ Member z (b ∷ ys)
    both f b fs bs xs ys to (inl (inl e)) = inl (inl e)
    both f b fs bs xs ys to (inl (inr m)) = elim (to (inl m)) [
      | inl a ↦ inl (inr a)
      | inr c ↦ inr (inr c)
    ]
    both f b fs bs xs ys to (inr (inl e)) = inr (inl e)
    both f b fs bs xs ys to (inr (inr m)) = elim (to (inr m)) [
      | inl a ↦ inl (inr a)
      | inr c ↦ inr (inr c)
    ]

turns :
    (f b : Candidate) (fs bs xs ys : List Candidate)
    → Same (f ∷ fs) (b ∷ bs) (f ∷ xs) (b ∷ ys)
    → Same (f ∷ fs) (b ∷ bs) (b ∷ xs) (f ∷ ys)
turns f b fs bs xs ys s z =
    let (to, of) = s z in (λ m. cross f b xs ys (to m), λ m. of (cross b f xs ys m))
  where
    cross :
        (f b : Candidate) (xs ys : List Candidate)
        → Member z (f ∷ xs) ⊎ Member z (b ∷ ys)
        → Member z (b ∷ xs) ⊎ Member z (f ∷ ys)
    cross f b xs ys (inl (inl e)) = inr (inl e)
    cross f b xs ys (inl (inr m)) = inl (inr m)
    cross f b xs ys (inr (inl e)) = inl (inl e)
    cross f b xs ys (inr (inr m)) = inr (inr m)

module _ {fields : List OrderField} (o : IsOrdered fields) where
  swap_cells-Same :
      (fs bs : List Candidate)
      → All (λ k. Made o k.cell) fs
      → All (λ k. Made o k.cell) bs
      → (xs : List Candidate) × (ys : List Candidate) × (swap_cells fs bs ≡ ok (xs, ys))
        × Same fs bs xs ys
  unfolding swap_cells
  swap_cells-Same fs [] h k = (fs, [], refl, λ z. (λ m. m, λ m. m))
  swap_cells-Same [] (b ∷ bs) h k = ([], b ∷ bs, refl, λ z. (λ m. m, λ m. m))
  swap_cells-Same (f ∷ fs) (b ∷ bs) h k =
      let (xs, ys, run, same) = swap_cells-Same fs bs h.1 k.1 in
      let less = o.agrees b.cell.row f.cell.row _ _ k.0.0 h.0.0 k.0.1 h.0.1 in
      elim (Bool-cases (o.before b.cell.row f.cell.row)) [
        | inl e ↦ (
          b ∷ xs,
          f ∷ ys,
          rw (less, run, e) refl,
          turns f b fs bs xs ys (stays f b fs bs xs ys same),
        )
        | inr e ↦ (f ∷ xs, b ∷ ys, rw (less, run, e) refl, stays f b fs bs xs ys same)
      ]

  least_of :
      (ls : List Candidate) (k : Candidate)
      → Member k ls
      → All (λ d. Made o d.cell) ls
      → (es : List Candidate) × (l : Candidate) × (sort_cells [] ls ≡ ok es)
        × (last_of es ≡ ok l)
        × All (λ d. Le o l.cell.row d.cell.row) ls
        × Member l ls
  least_of [] k m h = absurd m
  least_of (d ∷ ls) k m h = sort_cells-least o d ls h

  -- Of at least one candidate, sorting gives one first that may come before each of them.
  pub sorted_cells-least :
      (k : Candidate) (ks : List Candidate)
      → All (λ d. Made o d.cell) (k ∷ ks)
      → (es : List Candidate) × (l : Candidate) × (sorted_cells (k ∷ ks) ≡ ok es)
        × (last_of es ≡ ok l)
        × All (λ d. Le o l.cell.row d.cell.row) (k ∷ ks)
        × Member l (k ∷ ks)
  unfolding sorted_cells
  sorted_cells-least k ks h =
      let all = k ∷ ks in
      let fs = take 6 all in
      let bs = drop 6 all in
      let made = λ (x : Candidate) (m : Member x fs ⊎ Member x bs).
        All-Member (λ d. Made o d.cell) x all h
          (subst (Member x) (take-drop 6 all) (Member-append x fs bs m)) in
      let (xs, ys, run, same) =
        swap_cells-Same fs bs (Member-All (λ d. Made o d.cell) fs (λ x m. made x (inl m)))
          (Member-All (λ d. Made o d.cell) bs (λ x m. made x (inr m))) in
      let to = λ (x : Candidate) (m : Member x all).
        Member-append x xs ys
          ((same x).0 (Member-parts x fs bs (subst (Member x) (sym (take-drop 6 all)) m))) in
      let of = λ (x : Candidate) (m : Member x (xs ++ ys)).
        subst (Member x) (take-drop 6 all)
          (Member-append x fs bs ((same x).1 (Member-parts x xs ys m))) in
      let (es, l, run', last, least, from) = least_of (xs ++ ys) k (to k (inl refl)) (
        Member-All (λ d. Made o d.cell) (xs ++ ys)
          (λ x m. All-Member (λ d. Made o d.cell) x all h (of x m))) in
      (
        es,
        l,
        rw run run',
        last,
        Member-All (λ d. Le o l.cell.row d.cell.row) all
            (λ x m. All-Member (λ d. Le o l.cell.row d.cell.row) x (xs ++ ys) least (to x m)),
        of l from,
      )
