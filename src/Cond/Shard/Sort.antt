-- ===== src/Cond/Shard/Sort.antt =====
-- `sort.Sort(ConditionSlice(keyGroup))` of pkg/cond/condition.go, as Go 1.18 sorts at most twelve
-- elements: a pass over the elements six apart, and an insertion sort. (Its quicksort of more
-- elements is left out; the insertion sort stands for it.)
use dbpack.Common.{
  suc, ◌+◌, ◌≡◌, ◌⊎◌, refl, sym, ap, take, drop, take-drop, length-append, arith, length, List, [],
  ◌∷◌, ◌++◌, Bool, true, false, ltb, ◌==◌, if◌then◌else◌, All, Bool-cases, inl, inr,
}
use mathlib.Core.Path.{subst}
use dbpack.Value.{Bytes, Value, format, text_ltb}
use dbpack.Cond.{Op, eq, ne, lt, le, gt, ge, like, KeyCondition}

-- `Op.String()`
pub op_name : Op → Bytes
op_name eq = b'e' ∷ b'q' ∷ []
op_name ne = b'n' ∷ b'e' ∷ []
op_name lt = b'l' ∷ b't' ∷ []
op_name le = b'l' ∷ b'e' ∷ []
op_name gt = b'g' ∷ b't' ∷ []
op_name ge = b'g' ∷ b'e' ∷ []
op_name like = b'l' ∷ b'i' ∷ b'k' ∷ b'e' ∷ []

-- `ConditionSlice.Less`: the texts "key op value" in order.
pub less : KeyCondition → KeyCondition → Bool
unfolding op_name
less c1 c2 =
    text_ltb (c1.key ++ (op_name c1.op ++ format c1.value))
      (c2.key ++ (op_name c2.op ++ format c2.value))

insert_key : KeyCondition → List KeyCondition → List KeyCondition
unfolding less
insert_key c [] = c ∷ []
insert_key c (d ∷ ds) = let rest = insert_key c ds in if less c d then c ∷ d ∷ ds else d ∷ rest

sort_onto : List KeyCondition → List KeyCondition → List KeyCondition
unfolding insert_key
sort_onto done [] = done
sort_onto done (c ∷ cs) = sort_onto (insert_key c done) cs

-- The pass: the two conditions at one place, of the first six and of the others, change places if they
-- are out of order.
swap_pairs : List KeyCondition → List KeyCondition → List KeyCondition × List KeyCondition
unfolding less
swap_pairs fs [] = (fs, [])
swap_pairs [] (b ∷ bs) = ([], b ∷ bs)
swap_pairs (f ∷ fs) (b ∷ bs) =
    let (xs, ys) = swap_pairs fs bs in if less b f then (b ∷ xs, f ∷ ys) else (f ∷ xs, b ∷ ys)

joined : List KeyCondition × List KeyCondition → List KeyCondition
joined (xs, ys) = xs ++ ys

unfoldable pub sort_keys : List KeyCondition → List KeyCondition
unfolding sort_onto swap_pairs joined
sort_keys cs = sort_onto [] (joined (swap_pairs (take 6 cs) (drop 6 cs)))

-- Some element has a property.
abbrev pub Any : {A : Type 0} → (A → Type 0) → List A → Type 0
Any P [] = ⊥
Any P (x ∷ xs) = P x ⊎ Any P xs

module _ (P : KeyCondition → Type 0) where
  insert_key-All :
      (c : KeyCondition) (ds : List KeyCondition) → P c → All P ds → All P (insert_key c ds)
  unfolding insert_key
  insert_key-All c [] h k = (h, tt)
  insert_key-All c (d ∷ ds) h k = elim (Bool-cases (less c d)) [
    | inl e ↦ rw e (h, k)
    | inr e ↦ rw e (k.0, insert_key-All c ds h k.1)
  ]

  sort_onto-All : (done cs : List KeyCondition) → All P done → All P cs → All P (sort_onto done cs)
  unfolding sort_onto
  sort_onto-All done [] h k = h
  sort_onto-All done (c ∷ cs) h k =
      sort_onto-All (insert_key c done) cs (insert_key-All c done k.0 h) k.1

  append-All : (xs ys : List KeyCondition) → All P xs → All P ys → All P (xs ++ ys)
  append-All [] ys h k = k
  append-All (x ∷ xs) ys h k = (h.0, append-All xs ys h.1 k)

  All-parts : (xs ys : List KeyCondition) → All P (xs ++ ys) → All P xs × All P ys
  All-parts [] ys h = (tt, h)
  All-parts (x ∷ xs) ys h = let (a, b) = All-parts xs ys h.1 in ((h.0, a), b)

  swap_pairs-All :
      (fs bs : List KeyCondition) → All P fs → All P bs → All P (joined (swap_pairs fs bs))
  unfolding swap_pairs joined
  swap_pairs-All fs [] h k = append-All fs [] h k
  swap_pairs-All [] (b ∷ bs) h k = k
  swap_pairs-All (f ∷ fs) (b ∷ bs) h k =
      let (x, y) =
        All-parts (swap_pairs fs bs).0 (swap_pairs fs bs).1 (swap_pairs-All fs bs h.1 k.1) in
      elim (Bool-cases (less b f)) [
        | inl e ↦ rw e (k.0, append-All (swap_pairs fs bs).0 (f ∷ (swap_pairs fs bs).1) x (h.0, y))
        | inr e ↦ rw e (h.0, append-All (swap_pairs fs bs).0 (b ∷ (swap_pairs fs bs).1) x (k.0, y))
      ]

  -- The sorted conditions have every property that all conditions have.
  pub sort_keys-All : (cs : List KeyCondition) → All P cs → All P (sort_keys cs)
  unfolding sort_keys
  sort_keys-All cs h =
      let (a, b) =
        All-parts (take 6 cs) (drop 6 cs) (subst (λ x. All P x) (sym (take-drop 6 cs)) h) in
      sort_onto-All [] _ tt (swap_pairs-All (take 6 cs) (drop 6 cs) a b)

  insert_key-Any :
      (c : KeyCondition) (ds : List KeyCondition) → P c ⊎ Any P ds → Any P (insert_key c ds)
  unfolding insert_key
  insert_key-Any c [] h = h
  insert_key-Any c (d ∷ ds) h = elim (Bool-cases (less c d)) [
    | inl e ↦ rw e h
    | inr e ↦ rw e (elim h [
      | inl a ↦ inr (insert_key-Any c ds (inl a))
      | inr (inl b) ↦ inl b
      | inr (inr r) ↦ inr (insert_key-Any c ds (inr r))
    ])
  ]

  sort_onto-Any : (done cs : List KeyCondition) → Any P done ⊎ Any P cs → Any P (sort_onto done cs)
  unfolding sort_onto
  sort_onto-Any done [] h = elim h [ inl a ↦ a | inr b ↦ elim b [ ] ]
  sort_onto-Any done (c ∷ cs) h = sort_onto-Any (insert_key c done) cs (elim h [
    | inl a ↦ inl (insert_key-Any c done (inr a))
    | inr (inl b) ↦ inl (insert_key-Any c done (inl b))
    | inr (inr r) ↦ inr r
  ])

  append-Any : (xs ys : List KeyCondition) → Any P xs ⊎ Any P ys → Any P (xs ++ ys)
  append-Any [] ys (inl a) = absurd a
  append-Any [] ys (inr b) = b
  append-Any (x ∷ xs) ys (inl (inl a)) = inl a
  append-Any (x ∷ xs) ys (inl (inr a)) = inr (append-Any xs ys (inl a))
  append-Any (x ∷ xs) ys (inr b) = inr (append-Any xs ys (inr b))

  Any-parts : (xs ys : List KeyCondition) → Any P (xs ++ ys) → Any P xs ⊎ Any P ys
  Any-parts [] ys h = inr h
  Any-parts (x ∷ xs) ys (inl a) = inl (inl a)
  Any-parts (x ∷ xs) ys (inr h) = elim (Any-parts xs ys h) [ inl a ↦ inl (inr a) | inr b ↦ inr b ]

  swap_pairs-Any :
      (fs bs : List KeyCondition) → Any P fs ⊎ Any P bs → Any P (joined (swap_pairs fs bs))
  unfolding swap_pairs joined
  swap_pairs-Any fs [] h = append-Any fs [] h
  swap_pairs-Any [] (b ∷ bs) h = elim h [ inl a ↦ absurd a | inr k ↦ k ]
  swap_pairs-Any (f ∷ fs) (b ∷ bs) h =
      let xs = (swap_pairs fs bs).0 in
      let ys = (swap_pairs fs bs).1 in
      let behind : Any P fs ⊎ Any P bs → Any P xs ⊎ Any P ys =
        λ k. Any-parts xs ys (swap_pairs-Any fs bs k) in
      elim (Bool-cases (less b f)) [
        | inl e ↦ rw e (elim h [
          | inl (inl a) ↦ inr (append-Any xs (f ∷ ys) (inr (inl a)))
          | inl (inr a) ↦ inr (append-Any xs (f ∷ ys) (later f xs ys (behind (inl a))))
          | inr (inl a) ↦ inl a
          | inr (inr a) ↦ inr (append-Any xs (f ∷ ys) (later f xs ys (behind (inr a))))
        ])
        | inr e ↦ rw e (elim h [
          | inl (inl a) ↦ inl a
          | inl (inr a) ↦ inr (append-Any xs (b ∷ ys) (later b xs ys (behind (inl a))))
          | inr (inl a) ↦ inr (append-Any xs (b ∷ ys) (inr (inl a)))
          | inr (inr a) ↦ inr (append-Any xs (b ∷ ys) (later b xs ys (behind (inr a))))
        ])
      ]
    where
      later :
          (c : KeyCondition) (xs ys : List KeyCondition)
          → Any P xs ⊎ Any P ys
          → Any P xs ⊎ Any P (c ∷ ys)
      later c xs ys (inl a) = inl a
      later c xs ys (inr b) = inr (inr b)

  pub sort_keys-Any : (cs : List KeyCondition) → Any P cs → Any P (sort_keys cs)
  unfolding sort_keys
  sort_keys-Any cs h = sort_onto-Any [] _ (
      inr (
        swap_pairs-Any (take 6 cs) (drop 6 cs)
          (Any-parts (take 6 cs) (drop 6 cs) (subst (λ x. Any P x) (sym (take-drop 6 cs)) h))))

length-insert_key :
    (c : KeyCondition) (ds : List KeyCondition) → length (insert_key c ds) ≡ suc (length ds)
unfolding insert_key
length-insert_key c [] = refl
length-insert_key c (d ∷ ds) = elim (Bool-cases (less c d)) [
  | inl e ↦ rw e
  | inr e ↦ rw e (ap suc (length-insert_key c ds))
]

length-sort_onto :
    (done cs : List KeyCondition) → length (sort_onto done cs) ≡ length done + length cs
unfolding sort_onto
length-sort_onto done [] = omega arith
length-sort_onto done (c ∷ cs) =
    omega (arith, length-sort_onto (insert_key c done) cs, length-insert_key c done)

length-swap_pairs :
    (fs bs : List KeyCondition) → length (joined (swap_pairs fs bs)) ≡ length fs + length bs
unfolding swap_pairs joined
length-swap_pairs fs [] = omega (arith, length-append fs [])
length-swap_pairs [] (b ∷ bs) = omega arith
length-swap_pairs (f ∷ fs) (b ∷ bs) =
    let xs = (swap_pairs fs bs).0 in
    let ys = (swap_pairs fs bs).1 in
    let rest = length-swap_pairs fs bs in
    elim (Bool-cases (less b f)) [
      | inl e ↦ rw e (omega (arith, rest, length-append xs ys, length-append xs (f ∷ ys)))
      | inr e ↦ rw e (omega (arith, rest, length-append xs ys, length-append xs (b ∷ ys)))
    ]

-- Sorting keeps the number of conditions.
pub length-sort_keys : (cs : List KeyCondition) → length (sort_keys cs) ≡ length cs
unfolding sort_keys
length-sort_keys cs =
    let parts = ap length (take-drop 6 cs) in
    omega (
      arith,
      length-sort_onto [] (joined (swap_pairs (take 6 cs) (drop 6 cs))),
      length-swap_pairs (take 6 cs) (drop 6 cs),
      length-append (take 6 cs) (drop 6 cs),
      parts,
    )

-- Two texts with one beginning are in the order of what follows it.
text_ltb-prefix : (p s t : Bytes) → text_ltb (p ++ s) (p ++ t) ≡ text_ltb s t
unfolding text_ltb
text_ltb-prefix [] s t = refl
text_ltb-prefix (c ∷ p) s t =
    let before : ltb c c ≡ false = ground arith in
    let same : (c == c) ≡ true = ground arith in rw (before, same, text_ltb-prefix p s t)

abbrev bound : Bytes → Op → Value → KeyCondition
bound name op v = record { key = name; op = op; value = v }

bounds_order : (name : Bytes) (v w : Value) → less (bound name le w) (bound name ge v) ≡ false
unfolding less op_name text_ltb
bounds_order name v w = text_ltb-prefix name (b'l' ∷ b'e' ∷ format w) (b'g' ∷ b'e' ∷ format v)

-- The two bounds of one column stay in their order: "ge" comes before "le".
pub sort_keys-bounds :
    (name : Bytes) (v w : Value)
    → sort_keys (bound name ge v ∷ bound name le w ∷ []) ≡ bound name ge v ∷ bound name le w ∷ []
unfolding sort_keys sort_onto insert_key swap_pairs joined
sort_keys-bounds name v w = rw (bounds_order name v w)
