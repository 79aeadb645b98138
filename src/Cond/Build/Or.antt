-- ===== src/Cond/Build/Or.antt =====
-- What `Or` returns: the disjunction of what the two conditions say.
use dbpack.Common.{ℕ, suc, ◌≡◌, refl, List, [], ◌∷◌, ◌++◌, some, length, set, All, All-map}
use dbpack.Cond.{Result, KeyCondition, disj}
use dbpack.Cond.Build.{
  Ref, key, node, truth, falsity, absent, Cell, Heap, get, alloc, chain, or_ref, key_or,
  key_or_cell, complex_or, cell_or_cell, cell_or_key,
}
use dbpack.Cond.Build.Reads.{Dnf, Clause, Clauses, Sep, Distinct, Apart, Reads, one, many}
use dbpack.Cond.Build.Memory.{
  Moves-refl, Moves-trans, Moves-alloc, Moves-fresh, Moves-weaken, Moves-set, get_new, get-set_same,
  Clauses-kept, Clauses-Placed, Clauses-append, Apart-owned, Apart-nothing, Apart-sym, All-split,
  All-append, Distinct-append, Placed,
}
use dbpack.Cond.Build.Loops.{append_nil, append_snoc}
use dbpack.Cond.Build.And.{Joined, alloc-Joined}

Joined-weaken :
    (out : Result (Ref × Heap)) (h : Heap) (old more : List Ref) (kss : Dnf)
    → ((x : ℕ) → All (Sep (node x)) more → All (Sep (node x)) old)
    → Joined out h old kss
    → Joined out h more kss
Joined-weaken out h old more kss f (t, h1, new, e, r, m) = (t, h1, new, e, r, Moves-weaken m f)

fresh_apart :
    (h : Heap) (d : Cell) (ts : List Ref) → All (Placed h) ts → All (Sep (node (length h))) ts
fresh_apart h d ts p =
    (Apart-sym ts (node (length h) ∷ []) (Apart-owned (Moves-fresh h d) ts p (Apart-nothing ts))).0

key_apart : (k : KeyCondition) (rs : List Ref) → All (Sep (key k)) rs
key_apart k [] = tt
key_apart k (r ∷ rs) = (tt, key_apart k rs)

-- `(a or b) or c`
or-Clause :
    (f : ℕ) (h : Heap) (a : ℕ) (rs : List Ref) (s : Ref) (ls : List KeyCondition)
    → get h a ≡ some (record { op = disj; conditions = rs })
    → Clause h s ls
    → or_ref (suc f) (node a) s h ≡ alloc disj (rs ++ s ∷ []) h
unfolding or_ref complex_or cell_or_cell cell_or_key
or-Clause f h a rs (key k) ls g d = rw g
or-Clause f h a rs (node b) ls g d = rw (g, d.0)
or-Clause f h a rs truth ls g d = elim d [ ]
or-Clause f h a rs falsity ls g d = elim d [ ]
or-Clause f h a rs absent ls g d = elim d [ ]

-- `a or b`
Clause-or :
    (f : ℕ) (h : Heap) (r s : Ref) (ks ls : List KeyCondition)
    → Clause h r ks
    → Clause h s ls
    → or_ref (suc f) r s h ≡ alloc disj (r ∷ s ∷ []) h
unfolding or_ref complex_or cell_or_cell cell_or_key key_or key_or_cell
Clause-or f h (key k) (key l) ks ls c d = refl
Clause-or f h (key k) (node b) ks ls c d = rw d.0
Clause-or f h (node a) (key l) ks ls c d = rw c.0
Clause-or f h (node a) (node b) ks ls c d = rw (c.0, d.0)
Clause-or f h (key k) truth ks ls c d = elim d [ ]
Clause-or f h (key k) falsity ks ls c d = elim d [ ]
Clause-or f h (key k) absent ks ls c d = elim d [ ]
Clause-or f h (node a) truth ks ls c d = elim d [ ]
Clause-or f h (node a) falsity ks ls c d = elim d [ ]
Clause-or f h (node a) absent ks ls c d = elim d [ ]
Clause-or f h truth s ks ls c d = elim c [ ]
Clause-or f h falsity s ks ls c d = elim c [ ]
Clause-or f h absent s ks ls c d = elim c [ ]

-- The loop of `a or (b or c)`, from a disjunction.
chain_disj :
    (f : ℕ) (h : Heap) (a : ℕ) (rs ss : List Ref) (kss lss : Dnf)
    → get h a ≡ some (record { op = disj; conditions = rs })
    → Clauses h rs kss
    → Clauses h ss lss
    → Distinct (node a ∷ (rs ++ ss))
    → Joined (chain (or_ref (suc f)) (node a) ss h) h (node a ∷ (rs ++ ss)) (kss ++ lss)
unfolding chain
chain_disj f h a rs [] kss [] g c d n = (
  node a,
  h,
  node a ∷ rs,
  refl,
  rw append_nil (many g c (rw append_nil at n)),
  rw append_nil (Moves-refl h (node a ∷ rs)),
)
chain_disj f h a rs [] kss (ls ∷ lss) g c d n = elim d [ ]
chain_disj f h a rs (s ∷ ss) kss [] g c d n = elim d [ ]
chain_disj f h a rs (s ∷ ss) kss (ls ∷ lss) g c d n =
    let cell : Cell = record { op = disj; conditions = rs ++ s ∷ [] } in
    let both = Clauses-append h rs (s ∷ ss) kss (ls ∷ lss) c d in
    let m = Moves-fresh h cell in
    let away = fresh_apart h cell _ (Clauses-Placed h _ _ both) in
    let first = Clauses-append h rs (s ∷ []) kss (ls ∷ []) c (d.0, tt) in
    let (t, h2, new, e, r, m2) =
      chain_disj f (h ++ cell ∷ []) (length h) (rs ++ s ∷ []) ss (kss ++ ls ∷ []) lss
        (get_new h cell) (Clauses-kept m _ _ (Apart-nothing _) first)
        (Clauses-kept m ss lss (Apart-nothing ss) d.1) (rw append_snoc (away, n.1)) in
    (
      t,
      h2,
      new,
      rw (or-Clause f h a rs s ls g d.0, e),
      rw append_snoc at r,
      Moves-trans (Moves-weaken (Moves-alloc h cell (rs ++ s ∷ ss)) (λ x u. u.1))
          (rw append_snoc at m2),
    )

-- `a or (b or c)`
chain_key :
    (f : ℕ) (h : Heap) (k : KeyCondition) (ss : List Ref) (lss : Dnf)
    → Clauses h ss lss
    → Distinct ss
    → Joined (chain (or_ref (suc f)) (key k) ss h) h (key k ∷ ss) ((k ∷ []) ∷ lss)
unfolding chain
chain_key f h k [] [] d n = (key k, h, key k ∷ [], refl, one refl, Moves-refl h (key k ∷ []))
chain_key f h k [] (ls ∷ lss) d n = elim d [ ]
chain_key f h k (s ∷ ss) [] d n = elim d [ ]
chain_key f h k (s ∷ ss) (ls ∷ lss) d n =
    let cell : Cell = record { op = disj; conditions = key k ∷ s ∷ [] } in
    let m = Moves-fresh h cell in
    let away = fresh_apart h cell (s ∷ ss) (Clauses-Placed h (s ∷ ss) (ls ∷ lss) d) in
    let kept = Clauses-kept m (s ∷ ss) (ls ∷ lss) (Apart-nothing (s ∷ ss)) d in
    let (t, h2, new, e, r, m2) =
      chain_disj f (h ++ cell ∷ []) (length h) (key k ∷ s ∷ []) ss ((k ∷ []) ∷ ls ∷ []) lss
        (get_new h cell) (refl, (kept.0, tt)) kept.1 ((tt, away), (key_apart k (s ∷ ss), n)) in
    (
      t,
      h2,
      new,
      rw (Clause-or f h (key k) s (k ∷ []) ls refl d.0, e),
      r,
      Moves-trans (Moves-alloc h cell (key k ∷ s ∷ ss)) m2,
    )

-- `a or (b or c)` and `(a and b) or (c or d)`
join_with_disj :
    (f : ℕ) (h : Heap) (r : Ref) (b : ℕ) (ss : List Ref) (ks : List KeyCondition) (lss : Dnf)
    → Clause h r ks
    → get h b ≡ some (record { op = disj; conditions = ss })
    → Clauses h ss lss
    → Distinct (node b ∷ ss)
    → All (Sep r) (node b ∷ ss)
    → Joined (or_ref (suc (suc f)) r (node b) h) h (r ∷ node b ∷ ss) (ks ∷ lss)
unfolding or_ref key_or key_or_cell complex_or cell_or_cell
join_with_disj f h (key k) b ss ks lss c g d n a =
    rw (c, g)
      (Joined-weaken _ h (key k ∷ ss) _ _ (λ x u. (u.0, u.1.1)) (chain_key f h k ss lss d n.1))
join_with_disj f h (node i) b ss ks lss c g d n a =
    rw (c.0, g)
      (Joined-weaken _ h (node i ∷ ss) _ _ (λ x u. (u.0, u.1.1))
        (alloc-Joined h (node i ∷ ss) (ks ∷ lss) (c, d) (a.1, n.1)))
join_with_disj f h truth b ss ks lss c g d n a = elim c [ ]
join_with_disj f h falsity b ss ks lss c g d n a = elim c [ ]
join_with_disj f h absent b ss ks lss c g d n a = elim c [ ]

-- `(a or b) or (c or d)`
join_disjs :
    (f : ℕ) (h : Heap) (a b : ℕ) (rs ss : List Ref) (kss lss : Dnf)
    → get h a ≡ some (record { op = disj; conditions = rs })
    → get h b ≡ some (record { op = disj; conditions = ss })
    → Clauses h rs kss
    → Clauses h ss lss
    → Distinct (node a ∷ rs)
    → Distinct ss
    → Apart (node a ∷ rs) ss
    → Joined (or_ref (suc (suc f)) (node a) (node b) h) h (node a ∷ (rs ++ ss)) (kss ++ lss)
unfolding or_ref complex_or cell_or_cell
join_disjs f h a b rs ss kss lss g g' c d n n' w =
    let cell : Cell = record { op = disj; conditions = rs ++ ss } in
    let m = Moves-set h a cell [] in
    let away = All-append (Sep (node a)) rs ss n.0 w.0 in
    let both = Clauses-append h rs ss kss lss c d in
    (
      node a,
      set h a cell,
      node a ∷ (rs ++ ss),
      rw (g, g'),
      many (get-set_same h a _ cell g)
          (Clauses-kept m _ _ (Apart-sym (node a ∷ []) _ (away, tt)) both)
          (away, Distinct-append rs ss n.1 n' w.1),
      Moves-set h a cell (rs ++ ss),
    )

-- For two conditions in separate parts of the memory: `Or` returns a condition that says what the
-- first one or the second one says, and it changes no other condition.
pub or_ref-append :
    (f : ℕ) (h : Heap) (r s : Ref) (kss lss : Dnf) (old more : List Ref)
    → Reads h r kss old
    → Reads h s lss more
    → Apart old more
    → Joined (or_ref (suc (suc f)) r s h) h (old ++ more) (kss ++ lss)
or_ref-append f h r s kss lss old more (one {ks = ks} c) (one {ks = ls} d) a =
    rw (Clause-or (suc f) h r s ks ls c d)
      (alloc-Joined h (r ∷ s ∷ []) (ks ∷ ls ∷ []) (c, (d, tt)) (a.0, (tt, tt)))
or_ref-append f h r s kss lss old more (one {ks = ks} c) (many {a = b} {rs = ss} g d n) a =
    join_with_disj f h r b ss ks lss c g d n a.0
or_ref-append f h r s kss lss old more (many {a = i} {rs = rs} g c n) (one {ks = ls} d) a =
    rw (or-Clause (suc f) h i rs s ls g d) (
      Joined-weaken _ h (rs ++ s ∷ []) _ _ (λ x u. u.1)
        (alloc-Joined h (rs ++ s ∷ []) (kss ++ ls ∷ [])
          (Clauses-append h rs (s ∷ []) kss (ls ∷ []) c (d, tt))
          (Distinct-append rs (s ∷ []) n.1 (tt, tt) a.1)))
or_ref-append f h r s kss lss old more (many {a = i} {rs = rs} g c n)
      (many {a = b} {rs = ss} g' d n') a =
    Joined-weaken _ h (node i ∷ (rs ++ ss)) _ _
      (λ x u.
        let (u1, u2) = All-split (Sep (node x)) rs (node b ∷ ss) u.1 in
        (u.0, All-append (Sep (node x)) rs ss u1 u2.1))
      (join_disjs f h i b rs ss kss lss g g' c d n n'.1 (a.0.1, All-map rs (λ q u. u.1) a.1))
