-- ===== src/Cond/Build/Loops.antt =====
-- The loops of `And` over the conditions of a disjunction.
use dbpack.Common.{
  ℕ, suc, ◌≤◌, ◌≡◌, ◌⊎◌, inl, inr, refl, ap, List, [], ◌∷◌, ◌++◌, map, length, length-append, set,
  All, arith,
}
use dbpack.Cond.{Result, ok, KeyCondition, conj}
use dbpack.Cond.Build.{
  Ref, key, node, truth, falsity, absent, Cell, Heap, alloc, collect, chain, collect_pairs, and_ref,
  key_and, key_and_cell, complex_and, cell_and_cell, cell_and_key,
}
use dbpack.Cond.Build.Reads.{Dnf, Clause, Clauses, Sep, Distinct, Apart, Moves}
use dbpack.Cond.Build.Memory.{
  Moves-refl, Moves-trans, Moves-append, Moves-nothing, Moves-fresh, Moves-set, get_new,
  get-set_same, Sep-sym, Apart-sym, Moves-weaken, Clause-kept, Clauses-kept, Clause-Placed,
  Clauses-Placed, Sep-owned, Apart-owned, Apart-nothing, Clauses-append, Distinct-append,
}

-- `x and y`, where each of the two is a disjunction of conjunctions.
abbrev pub product : Dnf → Dnf → Dnf
product [] lss = []
product (ks ∷ kss) lss = map (λ ls. ks ++ ls) lss ++ product kss lss

pub append_snoc :
    {A : Type 0} (xs : List A) (y : A) (zs : List A) → (xs ++ y ∷ []) ++ zs ≡ xs ++ y ∷ zs
append_snoc [] y zs = refl
append_snoc (x ∷ xs) y zs = ap (λ l. x ∷ l) (append_snoc xs y zs)

pub append_nil : {A : Type 0} (xs : List A) → xs ++ [] ≡ xs
append_nil [] = refl
append_nil (x ∷ xs) = ap (λ l. x ∷ l) (append_nil xs)

map-append : (ks ls : List KeyCondition) → map {B = Ref} key ks ++ map key ls ≡ map key (ks ++ ls)
map-append [] ls = refl
map-append (k ∷ ks) ls = ap (λ l. key k ∷ l) (map-append ks ls)

-- A method has returned a conjunction.
abbrev pub Returned : Result (Ref × Heap) → Heap → List Ref → List KeyCondition → Type 0
Returned out h old ks =
    (t : Ref) × (h' : Heap) × (out ≡ ok (t, h')) × Clause h' t ks × Moves h h' old (t ∷ [])

-- A loop has collected a disjunction.
abbrev pub Collected : Result (List Ref × Heap) → Heap → List Ref → Dnf → Type 0
Collected out h old kss =
    (ts : List Ref) × (h' : Heap) × (out ≡ ok (ts, h'))
    × Clauses h' ts kss
    × Moves h h' old ts
    × Distinct ts

conj_alloc :
    (h : Heap) (ks : List KeyCondition)
    → 2 ≤ length ks
    → Returned (alloc conj (map key ks) h) h [] ks
conj_alloc h ks l = (node (length h), _, refl, (get_new h _, l), Moves-fresh h _)

-- `(a and b) and c`
snoc_key :
    (f : ℕ) (h : Heap) (r : Ref) (ks : List KeyCondition) (l : KeyCondition)
    → Clause h r ks
    → Returned (and_ref (suc f) r (key l) h) h [] (ks ++ l ∷ [])
unfolding and_ref key_and complex_and cell_and_key
snoc_key f h (key k) ks l c = rw c (conj_alloc h (k ∷ l ∷ []) (omega arith))
snoc_key f h (node a) ks l (e, n) =
    rw (e, map-append ks (l ∷ []))
      (conj_alloc h (ks ++ l ∷ []) (omega (arith, length-append ks (l ∷ []))))
snoc_key f h truth ks l c = elim c [ ]
snoc_key f h falsity ks l c = elim c [ ]
snoc_key f h absent ks l c = elim c [ ]

-- `a and (b and c)`
chain_keys :
    (f : ℕ) (h : Heap) (r : Ref) (ks ls : List KeyCondition)
    → Clause h r ks
    → Returned (chain (and_ref (suc f)) r (map key ls) h) h (r ∷ []) (ks ++ ls)
unfolding chain
chain_keys f h r ks [] c = (r, h, refl, rw append_nil c, Moves-refl h (r ∷ []))
chain_keys f h r ks (l ∷ ls) c =
    let (t, h1, e1, c1, m1) = snoc_key f h r ks l c in
    let (u, h2, e2, c2, m2) = chain_keys f h1 t (ks ++ l ∷ []) ls c1 in
    (u, h2, rw (e1, e2), rw (append_snoc ks l ls) at c2, Moves-trans (Moves-nothing (r ∷ []) m1) m2)

-- Only two complex conditions are joined in place.
abbrev pub moved : Ref → Ref → List Ref
moved (node a) (node b) = node a ∷ []
moved _ _ = []

pub Clause-and :
    (f : ℕ) (h : Heap) (r s : Ref) (ks ls : List KeyCondition)
    → Clause h r ks
    → Clause h s ls
    → Sep r s
    → Returned (and_ref (suc (suc f)) r s h) h (moved r s) (ks ++ ls)
unfolding and_ref key_and key_and_cell complex_and cell_and_cell
Clause-and f h (key k) (key l) ks ls c d n = rw d (snoc_key (suc f) h (key k) ks l c)
Clause-and f h (key k) (node b) ks ls c d n =
    let (t, h', e, c', m) = chain_keys f h (key k) ks ls c in
    (t, h', rw (d.0, e), c', Moves-weaken m (λ x w. (tt, tt)))
Clause-and f h (node a) (key l) ks ls c d n = rw d (snoc_key (suc f) h (node a) ks l c)
Clause-and f h (node a) (node b) ks ls c d n =
    let both : Cell = record { op = conj; conditions = map key (ks ++ ls) } in
    (
      node a,
      set h a both,
      rw (c.0, d.0, map-append ks ls),
      (get-set_same h a _ both c.0, omega (arith, length-append ks ls)),
      Moves-set h a both [],
    )
Clause-and f h (key k) truth ks ls c d n = elim d [ ]
Clause-and f h (key k) falsity ks ls c d n = elim d [ ]
Clause-and f h (key k) absent ks ls c d n = elim d [ ]
Clause-and f h (node a) truth ks ls c d n = elim d [ ]
Clause-and f h (node a) falsity ks ls c d n = elim d [ ]
Clause-and f h (node a) absent ks ls c d n = elim d [ ]
Clause-and f h truth s ks ls c d n = elim c [ ]
Clause-and f h falsity s ks ls c d n = elim c [ ]
Clause-and f h absent s ks ls c d n = elim c [ ]

-- The receiver is no other condition, and at most it changes.
pub Moves-receiver :
    {h h' : Heap} (r s : Ref) {ts : List Ref} → Moves h h' (moved r s) ts → Moves h h' (r ∷ []) ts
Moves-receiver (node a) (node b) m = m
Moves-receiver (node a) (key l) m = Moves-nothing _ m
Moves-receiver (node a) truth m = Moves-nothing _ m
Moves-receiver (node a) falsity m = Moves-nothing _ m
Moves-receiver (node a) absent m = Moves-nothing _ m
Moves-receiver (key k) s m = Moves-nothing _ m
Moves-receiver truth s m = Moves-nothing _ m
Moves-receiver falsity s m = Moves-nothing _ m
Moves-receiver absent s m = Moves-nothing _ m

-- One round of a loop, from `h` to `h1`, and the rounds behind it, which change `rs`.
round :
    {h h1 h2 : Heap} (old rs ts : List Ref) (t : Ref) (ks : List KeyCondition) (kss : Dnf)
    → Clause h1 t ks
    → Moves h h1 old (t ∷ [])
    → All (Sep t) rs
    → Clauses h2 ts kss × Moves h1 h2 rs ts × Distinct ts
    → Clauses h2 (t ∷ ts) (ks ∷ kss) × Moves h h2 (old ++ rs) (t ∷ ts) × Distinct (t ∷ ts)
round {h1 = h1} old rs ts t ks kss c m a (cs, n, d) = (
  (Clause-kept n t ks a c, cs),
  Moves-append old (t ∷ []) rs ts m n,
  (Sep-owned n t (Clause-Placed h1 t ks c) a, d),
)

-- What is apart from the receiver is apart from the result.
rest-Apart :
    {h h1 : Heap} {r : Ref} (rs : List Ref) (kss : Dnf) (ts : List Ref)
    → Moves h h1 (r ∷ []) ts
    → Clauses h rs kss
    → All (Sep r) rs
    → Clauses h1 rs kss × Apart ts rs
rest-Apart {h = h} {r = r} rs kss ts m c a =
    let away = Apart-sym (r ∷ []) rs (a, tt) in
    (
      Clauses-kept m rs kss away c,
      Apart-sym rs ts (Apart-owned m rs (Clauses-Placed h rs kss c) away),
    )

-- `(a or b) and c`
pub loop_left :
    (f : ℕ) (h : Heap) (rs : List Ref) (s : Ref) (kss : Dnf) (ls : List KeyCondition)
    → Clauses h rs kss
    → Clause h s ls
    → Distinct rs
    → All (λ r. Sep r s) rs
    → Collected (collect (λ r. and_ref (suc (suc f)) r s) rs h) h rs (product kss (ls ∷ []))
unfolding collect
loop_left f h [] s [] ls c d n a = ([], h, refl, tt, Moves-refl h [], tt)
loop_left f h [] s (ks ∷ kss) ls c d n a = elim c [ ]
loop_left f h (r ∷ rs) s [] ls c d n a = elim c [ ]
loop_left f h (r ∷ rs) s (ks ∷ kss) ls c d n a =
    let (t, h1, e1, c1, m) = Clause-and f h r s ks ls c.0 d a.0 in
    let m1 = Moves-receiver r s m in
    let (rest, t_rs) = rest-Apart rs kss (t ∷ []) m1 c.1 n.0 in
    let other = Clause-kept m1 s ls (Sep-sym r s a.0, tt) d in
    let (ts, h2, e2, c2, m2, n2) = loop_left f h1 rs s kss ls rest other n.1 a.1 in
    let (c3, m3, n3) = round (r ∷ []) rs ts t (ks ++ ls) _ c1 m1 t_rs.0 (c2, m2, n2) in
    (t ∷ ts, h2, rw (e1, e2), c3, m3, n3)

-- `a and (b or c)`, where no round changes the receiver.
loop_right_fresh :
    (f : ℕ) (h : Heap) (r : Ref) (ss : List Ref) (ks : List KeyCondition) (lss : Dnf)
    → Clause h r ks
    → Clauses h ss lss
    → All (Sep r) ss
    → All (λ s. moved r s ≡ []) ss
    → Collected (collect (and_ref (suc (suc f)) r) ss h) h [] (map (λ ls. ks ++ ls) lss)
unfolding collect
loop_right_fresh f h r [] ks [] c d a e = ([], h, refl, tt, Moves-refl h [], tt)
loop_right_fresh f h r [] ks (ls ∷ lss) c d a e = elim d [ ]
loop_right_fresh f h r (s ∷ ss) ks [] c d a e = elim d [ ]
loop_right_fresh f h r (s ∷ ss) ks (ls ∷ lss) c d a e =
    let (t, h1, e1, c1, m) = Clause-and f h r s ks ls c d.0 a.0 in
    let m1 = rw e.0 at m in
    let rest = Clauses-kept m1 ss lss (Apart-nothing ss) d.1 in
    let (ts, h2, e2, c2, m2, n2) =
      loop_right_fresh f h1 r ss ks lss (Clause-kept m1 r ks tt c) rest a.1 e.1 in
    let (c3, m3, n3) = round [] [] ts t (ks ++ ls) _ c1 m1 tt (c2, m2, n2) in
    (t ∷ ts, h2, rw (e1, e2), c3, m3, n3)

-- The receiver is a key condition, or the conditions of the argument are, or there is one of them.
abbrev pub Safe : Ref → List Ref → Type 0
Safe r ss = All (λ s. moved r s ≡ []) ss ⊎ (length ss ≤ 1)

pub loop_right :
    (f : ℕ) (h : Heap) (r : Ref) (ss : List Ref) (ks : List KeyCondition) (lss : Dnf)
    → Clause h r ks
    → Clauses h ss lss
    → All (Sep r) ss
    → Safe r ss
    → Collected (collect (and_ref (suc (suc f)) r) ss h) h (r ∷ []) (map (λ ls. ks ++ ls) lss)
unfolding collect
loop_right f h r ss ks lss c d a (inl e) =
    let (ts, h', e', cs, m, n) = loop_right_fresh f h r ss ks lss c d a e in
    (ts, h', e', cs, Moves-nothing (r ∷ []) m, n)
loop_right f h r [] ks [] c d a (inr l) =
    ([], h, refl, tt, Moves-nothing (r ∷ []) (Moves-refl h []), tt)
loop_right f h r [] ks (ls ∷ lss) c d a (inr l) = elim d [ ]
loop_right f h r (s ∷ []) ks (ls ∷ []) c d a (inr l) =
    let (t, h1, e1, c1, m) = Clause-and f h r s ks ls c d.0 a.0 in
    (t ∷ [], h1, rw e1, (c1, tt), Moves-receiver r s m, (tt, tt))
loop_right f h r (s ∷ ss) ks [] c d a (inr l) = elim d [ ]
loop_right f h r (s ∷ []) ks (ls ∷ ls' ∷ lss) c d a (inr l) = elim d.1 [ ]
loop_right f h r (s ∷ s' ∷ ss) ks (ls ∷ lss) c d a (inr l) = absurd (omega arith)

-- `(a or b) and (c or d)`
pub loop_pairs :
    (f : ℕ) (h : Heap) (rs ss : List Ref) (kss lss : Dnf)
    → Clauses h rs kss
    → Clauses h ss lss
    → Distinct rs
    → Apart rs ss
    → All (λ r. Safe r ss) rs
    → Collected (collect_pairs (and_ref (suc (suc f))) rs ss h) h rs (product kss lss)
unfolding collect_pairs
loop_pairs f h [] ss [] lss c d n a w = ([], h, refl, tt, Moves-refl h [], tt)
loop_pairs f h [] ss (ks ∷ kss) lss c d n a w = elim c [ ]
loop_pairs f h (r ∷ rs) ss [] lss c d n a w = elim c [ ]
loop_pairs f h (r ∷ rs) ss (ks ∷ kss) lss c d n a w =
    let (ts, h1, e1, c1, m1, n1) = loop_right f h r ss ks lss c.0 d a.0 w.0 in
    let (rest, t_rs) = rest-Apart rs kss ts m1 c.1 n.0 in
    let other = Clauses-kept m1 ss lss (Apart-sym (r ∷ []) ss (a.0, tt)) d in
    let (us, h2, e2, c2, m2, n2) = loop_pairs f h1 rs ss kss lss rest other n.1 a.1 w.1 in
    let t_us = Apart-owned m2 ts (Clauses-Placed h1 ts _ c1) t_rs in
    (
      ts ++ us,
      h2,
      rw (e1, e2),
      Clauses-append h2 ts us _ _ (Clauses-kept m2 ts _ t_rs c1) c2,
      Moves-append (r ∷ []) ts rs us m1 m2,
      Distinct-append ts us n1 n2 t_us,
    )
