-- ===== src/Cond/Parse/Meaning.antt =====
-- The rows that satisfy the parsed condition are those which the clause selects.
use dbpack.Common.{◌≡◌, ◌↔◌, ◌⊎◌, inl, inr, sym, ◌∙◌, List, [], ◌∷◌, ◌++◌, map, suc, ℕ, arith}
use mathlib.Core.Path.{subst}
use dbpack.Common.Int.{ℤ, ◌≤ℤ◌, ◌<ℤ◌}
use dbpack.Value.{Bytes, Kind, Value, integer}
use dbpack.Cond.{ok, ok-injective, Op, eq, ne, lt, le, gt, ge, like, KeyCondition, Holds}
use dbpack.Cond.Build.{Ref, key, node, truth, falsity, absent, Heap, condition_of, map_conditions}
use dbpack.Cond.Build.Reads.{Dnf, Clause, Clauses, Reads, one, many}
use dbpack.Cond.Build.Loops.{product}
use dbpack.Cond.Shard.Spec.{Satisfies, SatAll, SatSome}
use dbpack.Cond.Parse.{Expr, Exprs, Evaluator, flipped}
use dbpack.Cond.Parse.Spec.{
  SatEach, SatDnf, Is, Items, no_more, more, Says, column_left, column_right, within, outside,
  among, both, either, nested, compared_key, Selects, SelectsItem,
}
use dbpack.Cond.Parse.Sound.{no_column}

integer-injective : {j k : Kind} {y z : ℤ} → integer j y ≡ integer k z → y ≡ z
integer-injective e = cc

module _ (row : Bytes → ℤ) where
  SatEach-append :
      (ks ls : List KeyCondition) → SatEach row (ks ++ ls) ↔ (SatEach row ks × SatEach row ls)
  SatEach-append [] ls = (λ h. (tt, h), λ h. h.1)
  SatEach-append (k ∷ ks) ls =
      let (to, of) = SatEach-append ks ls in
      (λ h. ((h.0, (to h.1).0), (to h.1).1), λ h. (h.0.0, of (h.0.1, h.1)))

  SatDnf-append : (kss lss : Dnf) → SatDnf row (kss ++ lss) ↔ (SatDnf row kss ⊎ SatDnf row lss)
  SatDnf-append [] lss = (λ h. inr h, λ h. elim h [ inl a ↦ elim a [ ] | inr b ↦ b ])
  SatDnf-append (ks ∷ kss) lss =
      let (to, of) = SatDnf-append kss lss in
      (
        λ h. elim h [
          | inl a ↦ inl (inl a)
          | inr b ↦ elim (to b) [ inl c ↦ inl (inr c) | inr d ↦ inr d ]
        ],
        λ h. elim h [
          | inl a ↦ elim a [ inl b ↦ inl b | inr c ↦ inr (of (inl c)) ]
          | inr d ↦ inr (of (inr d))
        ],
      )

  SatDnf-map :
      (ks : List KeyCondition) (lss : Dnf)
      → SatDnf row (map (λ ls. ks ++ ls) lss) ↔ (SatEach row ks × SatDnf row lss)
  SatDnf-map ks [] = (λ h. elim h [ ], λ h. h.1)
  SatDnf-map ks (ls ∷ lss) =
      let (to, of) = SatDnf-map ks lss in
      let (split, join) = SatEach-append ks ls in
      (
        λ h. elim h [ inl a ↦ ((split a).0, inl (split a).1) | inr b ↦ ((to b).0, inr (to b).1) ],
        λ h. elim h.1 [ inl a ↦ inl (join (h.0, a)) | inr b ↦ inr (of (h.0, b)) ],
      )

  -- The product of two disjunctions of conjunctions holds where both hold.
  pub SatDnf-product :
      (kss lss : Dnf) → SatDnf row (product kss lss) ↔ (SatDnf row kss × SatDnf row lss)
  SatDnf-product [] lss = (λ h. elim h [ ], λ h. h.0)
  SatDnf-product (ks ∷ kss) lss =
      let (to, of) = SatDnf-product kss lss in
      let (split, join) = SatDnf-append (map (λ ls. ks ++ ls) lss) (product kss lss) in
      let (to1, of1) = SatDnf-map ks lss in
      (
        λ h. elim (split h) [
          | inl a ↦ (inl (to1 a).0, (to1 a).1)
          | inr b ↦ (inr (to b).0, (to b).1)
        ],
        λ h. elim h.0 [ inl a ↦ join (inl (of1 (a, h.1))) | inr b ↦ join (inr (of (b, h.1))) ],
      )

  -- A condition in memory, read as a tree.
  keys_Satisfies :
      (f : ℕ) (h : Heap) (ks : List KeyCondition)
      → SatAll row (map_conditions (condition_of (suc f) h) (map key ks)) ↔ SatEach row ks
  unfolding condition_of
  keys_Satisfies f h [] = (λ w. tt, λ w. tt)
  keys_Satisfies f h (k ∷ ks) =
      let (to, of) = keys_Satisfies f h ks in (λ w. (w.0, to w.1), λ w. (w.0, of w.1))

  Clause-Satisfies :
      (f : ℕ) (h : Heap) (r : Ref) (ks : List KeyCondition)
      → Clause h r ks
      → Satisfies row (condition_of (suc (suc f)) h r) ↔ SatEach row ks
  unfolding condition_of
  Clause-Satisfies f h (key k) ks c = rw c (λ w. (w, tt), λ w. w.0)
  Clause-Satisfies f h (node a) ks c = rw c.0 (keys_Satisfies f h ks)
  Clause-Satisfies f h truth ks c = elim c [ ]
  Clause-Satisfies f h falsity ks c = elim c [ ]
  Clause-Satisfies f h absent ks c = elim c [ ]

  Clauses-Satisfies :
      (f : ℕ) (h : Heap) (rs : List Ref) (kss : Dnf)
      → Clauses h rs kss
      → SatSome row (map_conditions (condition_of (suc (suc f)) h) rs) ↔ SatDnf row kss
  Clauses-Satisfies f h [] [] c = (λ w. w, λ w. w)
  Clauses-Satisfies f h [] (ks ∷ kss) c = elim c [ ]
  Clauses-Satisfies f h (r ∷ rs) [] c = elim c [ ]
  Clauses-Satisfies f h (r ∷ rs) (ks ∷ kss) c =
      let (to, of) = Clause-Satisfies f h r ks c.0 in
      let (to1, of1) = Clauses-Satisfies f h rs kss c.1 in
      (
        λ w. elim w [ inl a ↦ inl (to a) | inr b ↦ inr (to1 b) ],
        λ w. elim w [ inl a ↦ inl (of a) | inr b ↦ inr (of1 b) ],
      )

  pub Reads-Satisfies :
      (f : ℕ) (h : Heap) (r : Ref) (kss : Dnf) (fp : List Ref)
      → Reads h r kss fp
      → Satisfies row (condition_of (suc (suc (suc f))) h r) ↔ SatDnf row kss
  unfolding condition_of
  Reads-Satisfies f h r kss fp (one {ks = ks} c) =
      let (to, of) = Clause-Satisfies (suc f) h r ks c in
      (λ w. inl (to w), λ w. elim w [ inl a ↦ of a | inr b ↦ elim b [ ] ])
  Reads-Satisfies f h r kss fp (many {rs = rs} g c n) = rw g (Clauses-Satisfies f h rs kss c)

lt_or_le : (a b : ℤ) → (a <ℤ b) ⊎ (b ≤ℤ a)
lt_or_le a b = omega arith

below_not : (a b : ℤ) → a <ℤ b → ¬ (b ≤ℤ a)
below_not a b h k = omega arith

flipped-Holds : (op o : Op) (w z : ℤ) → flipped op ≡ ok o → Holds o z w ↔ Holds op w z
unfolding flipped
flipped-Holds eq o w z e = rw (sym (ok-injective e)) (λ h. sym h, λ h. sym h)
flipped-Holds ne o w z e = rw (sym (ok-injective e)) (λ h q. h (sym q), λ h q. h (sym q))
flipped-Holds lt o w z e = rw (sym (ok-injective e)) (λ h. h, λ h. h)
flipped-Holds le o w z e = rw (sym (ok-injective e)) (λ h. h, λ h. h)
flipped-Holds gt o w z e = rw (sym (ok-injective e)) (λ h. h, λ h. h)
flipped-Holds ge o w z e = rw (sym (ok-injective e)) (λ h. h, λ h. h)
flipped-Holds like o w z e = cc

module _ (ev : Evaluator) (args : List Value) (row : Bytes → ℤ) where
  one_value : (e : Expr) (j k : Kind) (y z : ℤ) → Is ev args e j y → Is ev args e k z → y ≡ z
  one_value e j' k y z i j = integer-injective (ok-injective (sym i ∙ j))

  Items-Selects :
      (name : Bytes) (es : Exprs) (zs : List (Kind × ℤ))
      → Items ev args es zs
      → SatDnf row (map (λ z. compared_key name eq z.0 z.1 ∷ []) zs)
        ↔ SelectsItem ev args (row name) es
  Items-Selects name es zs no_more = (λ w. w, λ w. w)
  Items-Selects name es zs (more {e} {es = rest} {k} {z} {zs = ws} i is) =
      let (to, of) = Items-Selects name rest ws is in
      (
        λ w. elim w [ inl a ↦ inl (k, rw a.0 i) | inr b ↦ inr (to b) ],
        λ w. elim w [
          | inl a ↦ inl (integer-injective (ok-injective (sym a.1 ∙ i)), tt)
          | inr b ↦ inr (of b)
        ],
      )

  -- A row satisfies the condition that a clause says exactly if the clause selects it.
  pub Says-Selects :
      (e : Expr) (kss : Dnf) → Says ev args e kss → SatDnf row kss ↔ Selects ev args row e
  Says-Selects e kss (column_left {op} {name} {e = r} {k} {z} i) = (
    λ w. elim w [ inl a ↦ (z, (k, i), a.0) | inr b ↦ elim b [ ] ],
    λ (y, (l, j), w). inl (subst (λ x. Holds op x (row name)) (one_value r l k y z j i) w, tt),
  )
  Says-Selects e kss (column_right {op} {o} {name} {e = l} {k} {z} i f) =
      let (to, of) = flipped-Holds op o (row name) z f in
      rw (no_column ev args l k z i) (
        λ w. elim w [ inl a ↦ (z, (k, i), to a.0) | inr b ↦ elim b [ ] ],
        λ (y, (m, j), w).
            inl (of (subst (λ x. Holds op (row name) x) (one_value l m k y z j i) w), tt),
      )
  Says-Selects e kss (within {name} {l} {r} {j = p} {k = q} {y} {z} i j) = (
    λ w. elim w [ inl a ↦ (y, z, (p, i), (q, j), a.0, a.1.0) | inr b ↦ elim b [ ] ],
    λ (y', z', (p', i'), (q', j'), a, b). inl (
      subst (λ x. x ≤ℤ row name) (one_value l p' p y' y i' i) a,
      (subst (λ x. row name ≤ℤ x) (one_value r q' q z' z j' j) b, tt),
    ),
  )
  Says-Selects e kss (outside {name} {l} {r} {j = p} {k = q} {y} {z} i j) = (
    λ w. elim w [
      | inl a ↦ (y, z, (p, i), (q, j), λ w. below_not (row name) y a.0 w.0)
      | inr b ↦ elim b [
        | inl c ↦ (y, z, (p, i), (q, j), λ w. below_not z (row name) c.0 w.1)
        | inr d ↦ elim d [ ]
      ]
    ],
    λ (y', z', (p', i'), (q', j'), n). elim (lt_or_le (row name) y) [
      | inl a ↦ inl (a, tt)
      | inr a ↦ elim (lt_or_le z (row name)) [
        | inl b ↦ inr (inl (b, tt))
        | inr b ↦ absurd (
            n (
              subst (λ x. x ≤ℤ row name) (one_value l p p' y y' i i') a,
              subst (λ x. row name ≤ℤ x) (one_value r q q' z z' j j') b,
            ))
      ]
    ],
  )
  Says-Selects e kss (among {name} {es} {zs} is) = Items-Selects name es zs is
  Says-Selects e kss (both {l} {r} {kss = ks} {lss = ls} p q w) =
      let (split, join) = SatDnf-product row ks ls in
      let (to, of) = Says-Selects l ks p in
      let (to1, of1) = Says-Selects r ls q in
      (λ s. (to (split s).0, to1 (split s).1), λ s. join (of s.0, of1 s.1))
  Says-Selects e kss (either {l} {r} {kss = ks} {lss = ls} p q) =
      let (split, join) = SatDnf-append row ks ls in
      let (to, of) = Says-Selects l ks p in
      let (to1, of1) = Says-Selects r ls q in
      (
        λ s. elim (split s) [ inl a ↦ inl (to a) | inr b ↦ inr (to1 b) ],
        λ s. join (elim s [ inl a ↦ inl (of a) | inr b ↦ inr (of1 b) ]),
      )
  Says-Selects e kss (nested {e = l} p) = Says-Selects l kss p
