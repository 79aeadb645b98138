-- ===== src/Cond/Build/And.antt =====
-- What `And` returns: the conjunction of what the two conditions say.
use dbpack.Common.{
  ℕ, suc, ◌≤◌, ◌≡◌, ◌⊎◌, inl, inr, refl, List, [], ◌∷◌, ◌++◌, map, some, length, All, All-map,
  arith,
}
use dbpack.Cond.{Result, ok, ◌>>=◌, KeyCondition, disj}
use dbpack.Cond.Build.{
  Ref, key, node, truth, falsity, absent, Cell, Heap, get, alloc, alloc_disj, and_ref, key_and,
  key_and_cell, complex_and, cell_and_cell, cell_and_key,
}
use dbpack.Cond.Build.Reads.{Dnf, Clause, Clauses, Sep, Distinct, Apart, Reads, one, many, Moves}
use dbpack.Cond.Build.Memory.{
  Moves-trans, Moves-alloc, Moves-fresh, Moves-weaken, get_new, Clauses-kept, Clauses-Placed,
  Apart-owned, Apart-nothing, Apart-sym, All-split,
}
use dbpack.Cond.Build.Loops.{
  product, Collected, moved, Clause-and, Safe, loop_left, loop_right, loop_pairs, append_nil,
  Moves-receiver,
}

-- A method has returned a condition that says `kss`.
abbrev pub Joined : Result (Ref × Heap) → Heap → List Ref → Dnf → Type 0
Joined out h old kss =
    (t : Ref) × (h' : Heap) × (new : List Ref) × (out ≡ ok (t, h'))
    × Reads h' t kss new
    × Moves h h' old new

pub alloc-Joined :
    (h : Heap) (ts : List Ref) (kss : Dnf)
    → Clauses h ts kss
    → Distinct ts
    → Joined (alloc disj ts h) h ts kss
alloc-Joined h ts kss c d =
    let cell : Cell = record { op = disj; conditions = ts } in
    let m = Moves-fresh h cell in
    let away = Apart-owned m ts (Clauses-Placed h ts kss c) (Apart-nothing ts) in
    (
      node (length h),
      _,
      node (length h) ∷ ts,
      refl,
      many (get_new h cell) (Clauses-kept m ts kss (Apart-nothing ts) c)
          ((Apart-sym ts (node (length h) ∷ []) away).0, d),
      Moves-alloc h cell ts,
    )

-- A new disjunction of what a loop has collected.
Collected-Joined :
    (out : Result (List Ref × Heap)) (h : Heap) (old more : List Ref) (kss : Dnf)
    → ((x : ℕ) → All (Sep (node x)) more → All (Sep (node x)) old)
    → Collected out h old kss
    → Joined (out >>= alloc_disj) h more kss
Collected-Joined out h old more kss f (ts, h1, e, c, m, d) =
    let (t, h2, new, e2, r, n) = alloc-Joined h1 ts kss c d in
    (t, h2, new, rw (e, e2), r, Moves-weaken (Moves-trans m n) f)

-- The conjunctions are single key conditions.
abbrev pub Singles : Dnf → Type 0
Singles kss = All (λ ks. length ks ≤ 1) kss

-- Where `And` of two conditions is right: one of the two has no conjunction of several key
-- conditions, or the second one is no disjunction.
abbrev pub CanMeet : Dnf → Dnf → Type 0
CanMeet kss lss = Singles kss ⊎ Singles lss ⊎ (length lss ≤ 1)

moved-key : (r : Ref) (l : KeyCondition) → moved r (key l) ≡ []
moved-key (key k) l = refl
moved-key (node a) l = refl
moved-key truth l = refl
moved-key falsity l = refl
moved-key absent l = refl

module _ (h : Heap) where
  single_moved :
      (r : Ref) (ks : List KeyCondition) (ss : List Ref)
      → Clause h r ks
      → length ks ≤ 1
      → All (λ s. moved r s ≡ []) ss
  single_moved r ks [] c l = tt
  single_moved (key k) ks (s ∷ ss) c l = (refl, single_moved (key k) ks ss c l)
  single_moved (node a) ks (s ∷ ss) c l = absurd (omega (arith, c.1))
  single_moved truth ks (s ∷ ss) c l = elim c [ ]
  single_moved falsity ks (s ∷ ss) c l = elim c [ ]
  single_moved absent ks (s ∷ ss) c l = elim c [ ]

  Singles-moved :
      (r : Ref) (ss : List Ref) (lss : Dnf)
      → Clauses h ss lss
      → Singles lss
      → All (λ s. moved r s ≡ []) ss
  Singles-moved r [] lss c l = tt
  Singles-moved r (s ∷ ss) [] c l = elim c [ ]
  Singles-moved r (key k ∷ ss) (ls ∷ lss) c l = (moved-key r k, Singles-moved r ss lss c.1 l.1)
  Singles-moved r (node a ∷ ss) (ls ∷ lss) c l = absurd (omega (arith, c.0.1, l.0))
  Singles-moved r (truth ∷ ss) (ls ∷ lss) c l = elim c.0 [ ]
  Singles-moved r (falsity ∷ ss) (ls ∷ lss) c l = elim c.0 [ ]
  Singles-moved r (absent ∷ ss) (ls ∷ lss) c l = elim c.0 [ ]

  few_clauses : (ss : List Ref) (lss : Dnf) → Clauses h ss lss → length ss ≡ length lss
  few_clauses [] [] c = refl
  few_clauses [] (ls ∷ lss) c = elim c [ ]
  few_clauses (s ∷ ss) [] c = elim c [ ]
  few_clauses (s ∷ ss) (ls ∷ lss) c = omega (arith, few_clauses ss lss c.1)

  CanMeet-Safe :
      (rs ss : List Ref) (kss lss : Dnf)
      → Clauses h rs kss
      → Clauses h ss lss
      → CanMeet kss lss
      → All (λ r. Safe r ss) rs
  CanMeet-Safe [] ss kss lss c d w = tt
  CanMeet-Safe (r ∷ rs) ss [] lss c d w = elim c [ ]
  CanMeet-Safe (r ∷ rs) ss (ks ∷ kss) lss c d (inl u) =
      (inl (single_moved r ks ss c.0 u.0), CanMeet-Safe rs ss kss lss c.1 d (inl u.1))
  CanMeet-Safe (r ∷ rs) ss (ks ∷ kss) lss c d (inr (inl u)) =
      (inl (Singles-moved r ss lss d u), CanMeet-Safe rs ss kss lss c.1 d (inr (inl u)))
  CanMeet-Safe (r ∷ rs) ss (ks ∷ kss) lss c d (inr (inr u)) =
      (inr (omega (arith, few_clauses ss lss d)), CanMeet-Safe rs ss kss lss c.1 d (inr (inr u)))

-- The memory that a call is given to change covers that of the loop.
covers_left :
    (a : ℕ) (rs ss : List Ref) (x : ℕ)
    → All (Sep (node x)) ((node a ∷ rs) ++ ss)
    → All (Sep (node x)) rs
covers_left a rs ss x k = (All-split (Sep (node x)) rs ss k.1).0

module _ (f : ℕ) (h : Heap) where
  meet_with_disj :
      (r : Ref) (b : ℕ) (ss : List Ref) (ks : List KeyCondition) (lss : Dnf)
      → Clause h r ks
      → get h b ≡ some (record { op = disj; conditions = ss })
      → Clauses h ss lss
      → All (Sep r) (node b ∷ ss)
      → Safe r ss
      → Joined
          (and_ref (suc (suc (suc f))) r (node b) h)
          h
          (r ∷ node b ∷ ss)
          (product (ks ∷ []) lss)
  unfolding and_ref key_and key_and_cell complex_and cell_and_cell
  meet_with_disj (key k) b ss ks lss c g d a w =
      rw (g, append_nil (map (λ ls. ks ++ ls) lss))
        (Collected-Joined _ h (key k ∷ []) _ _ (λ x u. (u.0, tt))
          (loop_right f h (key k) ss ks lss c d a.1 w))
  meet_with_disj (node i) b ss ks lss c g d a w =
      rw (c.0, g, append_nil (map (λ ls. ks ++ ls) lss))
        (Collected-Joined _ h (node i ∷ []) _ _ (λ x u. (u.0, tt))
          (loop_right f h (node i) ss ks lss c d a.1 w))
  meet_with_disj truth b ss ks lss c g d a w = elim c [ ]
  meet_with_disj falsity b ss ks lss c g d a w = elim c [ ]
  meet_with_disj absent b ss ks lss c g d a w = elim c [ ]

  disj_meets :
      (a : ℕ) (rs : List Ref) (s : Ref) (kss : Dnf) (ls : List KeyCondition)
      → get h a ≡ some (record { op = disj; conditions = rs })
      → Clauses h rs kss
      → Distinct (node a ∷ rs)
      → Clause h s ls
      → All (λ r. Sep r s) rs
      → Joined
          (and_ref (suc (suc (suc f))) (node a) s h)
          h
          ((node a ∷ rs) ++ s ∷ [])
          (product kss (ls ∷ []))
  unfolding and_ref complex_and cell_and_cell cell_and_key
  disj_meets a rs (key k) kss ls g c n d w = rw g (
      Collected-Joined _ h rs _ _ (covers_left a rs (key k ∷ []))
        (loop_left f h rs (key k) kss ls c d n.1 w))
  disj_meets a rs (node b) kss ls g c n d w =
      rw (g, d.0)
        (Collected-Joined _ h rs _ _ (covers_left a rs (node b ∷ []))
          (loop_left f h rs (node b) kss ls c d n.1 w))
  disj_meets a rs truth kss ls g c n d w = elim d [ ]
  disj_meets a rs falsity kss ls g c n d w = elim d [ ]
  disj_meets a rs absent kss ls g c n d w = elim d [ ]

  -- For two conditions in separate parts of the memory, of which one has no conjunction of several
  -- key conditions or the second one is no disjunction: `And` returns a condition that says their
  -- product, the conjunction of each part of the first with each of the second, and it changes no
  -- other condition.
  pub and_ref-product :
      (r s : Ref) (kss lss : Dnf) (old more : List Ref)
      → Reads h r kss old
      → Reads h s lss more
      → Apart old more
      → CanMeet kss lss
      → Joined (and_ref (suc (suc (suc f))) r s h) h (old ++ more) (product kss lss)
  unfolding and_ref complex_and cell_and_cell
  and_ref-product r s kss lss old more (one {ks = ks} c) (one {ks = ls} d) a w =
      let (t, h1, e, c1, m) = Clause-and (suc f) h r s ks ls c d a.0.0 in
      (t, h1, t ∷ [], e, one c1, Moves-weaken (Moves-receiver r s m) (λ x u. (u.0, tt)))
  and_ref-product r s kss lss old more (one {ks = ks} c) (many {a = b} {rs = ss} g d n) a w =
      meet_with_disj r b ss ks lss c g d a.0 (CanMeet-Safe h (r ∷ []) ss kss lss (c, tt) d w).0
  and_ref-product r s kss lss old more (many {a = i} {rs = rs} g c n) (one {ks = ls} d) a w =
      disj_meets i rs s kss ls g c n d (All-map rs (λ q u. u.0) a.1)
  and_ref-product r s kss lss old more (many {a = i} {rs = rs} g c n)
        (many {a = b} {rs = ss} g' d n') a w =
      rw (g, g')
        (Collected-Joined _ h rs _ _ (covers_left i rs (node b ∷ ss)) (
          loop_pairs f h rs ss kss lss c d n.1 (All-map rs (λ q u. u.1) a.1)
            (CanMeet-Safe h rs ss kss lss c d w)))
