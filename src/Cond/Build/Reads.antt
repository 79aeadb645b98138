-- ===== src/Cond/Build/Reads.antt =====
-- What a condition in memory says: a disjunction of conjunctions of key conditions; which part of
-- the memory it stands in, and what a method leaves of the rest.
use dbpack.Common.{ℕ, ◌≤◌, ◌≡◌, ◌≢◌, List, [], ◌∷◌, map, some, length, All}
use dbpack.Cond.{KeyCondition, conj, disj}
use dbpack.Cond.Build.{Ref, key, node, truth, falsity, absent, Cell, Heap, get}

-- A disjunction of conjunctions.
abbrev pub Dnf : Type 0
Dnf = List (List KeyCondition)

-- One condition is a conjunction of key conditions: a key condition, or a pointer to two or more.
abbrev pub Clause : Heap → Ref → List KeyCondition → Type 0
Clause h (key k) ks = ks ≡ k ∷ []
Clause h (node a) ks =
    (get h a ≡ some (record { op = conj; conditions = map key ks })) × (2 ≤ length ks)
Clause h truth ks = ⊥
Clause h falsity ks = ⊥
Clause h absent ks = ⊥

abbrev pub Clauses : Heap → List Ref → Dnf → Type 0
Clauses h [] [] = Unit
Clauses h [] (ks ∷ kss) = ⊥
Clauses h (r ∷ rs) [] = ⊥
Clauses h (r ∷ rs) (ks ∷ kss) = Clause h r ks × Clauses h rs kss

-- Two conditions are not at one address.
abbrev pub Sep : Ref → Ref → Type 0
Sep (node a) (node b) = a ≢ b
Sep _ _ = Unit

abbrev pub Distinct : List Ref → Type 0
Distinct [] = Unit
Distinct (r ∷ rs) = All (Sep r) rs × Distinct rs

abbrev pub Apart : List Ref → List Ref → Type 0
Apart rs ss = All (λ r. All (Sep r) ss) rs

-- A condition, what it says, and the conditions it stands in.
pub data Reads (h : Heap) : Ref → Dnf → List Ref → Type 0 where
  one : {r : Ref} {ks : List KeyCondition} → Clause h r ks → Reads h r (ks ∷ []) (r ∷ [])
  many :
      {a : ℕ} {rs : List Ref} {kss : Dnf}
      → get h a ≡ some (record { op = disj; conditions = rs })
      → Clauses h rs kss
      → Distinct (node a ∷ rs)
      → Reads h (node a) kss (node a ∷ rs)

-- From `h` to `h'`, only the conditions of `old` have changed, and those of `new` are among them or
-- new.
pub record Moves (h h' : Heap) (old new : List Ref) : Type 0 where
  pub same : (x : ℕ) (c : Cell) → get h x ≡ some c → All (Sep (node x)) old → get h' x ≡ some c
  pub owned :
      (x : ℕ) (c : Cell) → get h x ≡ some c → All (Sep (node x)) old → All (Sep (node x)) new
