-- ===== src/Cond/Build/Memory.antt =====
-- Memory that grows and changes: what `Moves` keeps, and how it composes.
use dbpack.Common.{
  ℕ, zero, suc, ◌≡◌, ◌≢◌, refl, sym, ◌∙◌, ap, List, [], ◌∷◌, ◌++◌, none, some, length, set, All,
  All-map,
}
use dbpack.Cond.{KeyCondition}
use dbpack.Cond.Build.{Ref, key, node, truth, falsity, absent, Cell, Heap, get}
use dbpack.Cond.Build.Reads.{Dnf, Clause, Clauses, Sep, Distinct, Apart, Moves}

pub All-append :
    {A : Type 0} (P : A → Type 0) (xs ys : List A) → All P xs → All P ys → All P (xs ++ ys)
All-append P [] ys h k = k
All-append P (x ∷ xs) ys h k = (h.0, All-append P xs ys h.1 k)

pub All-split :
    {A : Type 0} (P : A → Type 0) (xs ys : List A) → All P (xs ++ ys) → All P xs × All P ys
All-split P [] ys h = (tt, h)
All-split P (x ∷ xs) ys h = let (a, b) = All-split P xs ys h.1 in ((h.0, a), b)

pub Sep-sym : (r s : Ref) → Sep r s → Sep s r
Sep-sym (node a) (node b) e = λ q. e (sym q)
Sep-sym (node a) (key k) e = tt
Sep-sym (node a) truth e = tt
Sep-sym (node a) falsity e = tt
Sep-sym (node a) absent e = tt
Sep-sym (key k) (node b) e = tt
Sep-sym (key k) (key l) e = tt
Sep-sym (key k) truth e = tt
Sep-sym (key k) falsity e = tt
Sep-sym (key k) absent e = tt
Sep-sym truth (node b) e = tt
Sep-sym truth (key l) e = tt
Sep-sym truth truth e = tt
Sep-sym truth falsity e = tt
Sep-sym truth absent e = tt
Sep-sym falsity (node b) e = tt
Sep-sym falsity (key l) e = tt
Sep-sym falsity truth e = tt
Sep-sym falsity falsity e = tt
Sep-sym falsity absent e = tt
Sep-sym absent (node b) e = tt
Sep-sym absent (key l) e = tt
Sep-sym absent truth e = tt
Sep-sym absent falsity e = tt
Sep-sym absent absent e = tt

-- A condition that is not moved: a key condition, or one at an address that is kept.
abbrev pub Placed : Heap → Ref → Type 0
Placed h (node a) = (c : Cell) × (get h a ≡ some c)
Placed h _ = Unit

get_old : (h : Heap) (x : ℕ) (c d : Cell) → get h x ≡ some c → get (h ++ d ∷ []) x ≡ some c
get_old [] x c d e = cc
get_old (c' ∷ h) zero c d e = e
get_old (c' ∷ h) (suc x) c d e = get_old h x c d e

pub get_new : (h : Heap) (d : Cell) → get (h ++ d ∷ []) (length h) ≡ some d
get_new [] d = refl
get_new (c ∷ h) d = get_new h d

get_end : (h : Heap) → get h (length h) ≡ none
get_end [] = refl
get_end (c ∷ h) = get_end h

pub get-set_same : (h : Heap) (a : ℕ) (c d : Cell) → get h a ≡ some c → get (set h a d) a ≡ some d
get-set_same [] a c d e = cc
get-set_same (c' ∷ h) zero c d e = refl
get-set_same (c' ∷ h) (suc a) c d e = get-set_same h a c d e

get-set_other : (h : Heap) (a x : ℕ) (d : Cell) → x ≢ a → get (set h a d) x ≡ get h x
get-set_other [] a x d n = refl
get-set_other (c ∷ h) zero zero d n = absurd (n refl)
get-set_other (c ∷ h) zero (suc x) d n = refl
get-set_other (c ∷ h) (suc a) zero d n = refl
get-set_other (c ∷ h) (suc a) (suc x) d n = get-set_other h a x d (λ e. n (ap suc e))

new_address : (h : Heap) (x : ℕ) (c : Cell) → get h x ≡ some c → x ≢ length h
new_address h x c e q = let e' = rw q at e in let f = get_end h in cc

pub Moves-refl : (h : Heap) (rs : List Ref) → Moves h h rs rs
Moves-refl h rs = record { same = λ x c e k. e; owned = λ x c e k. k }

pub Moves-trans :
    {h h' h'' : Heap} {rs ss ts : List Ref}
    → Moves h h' rs ss
    → Moves h' h'' ss ts
    → Moves h h'' rs ts
Moves-trans m n = record {
  same = λ x c e k. n.same x c (m.same x c e k) (m.owned x c e k);
  owned = λ x c e k. n.owned x c (m.same x c e k) (m.owned x c e k);
}

-- One step on `rs`, and one on `ss`.
pub Moves-append :
    {h h' h'' : Heap} (rs rs' ss ss' : List Ref)
    → Moves h h' rs rs'
    → Moves h' h'' ss ss'
    → Moves h h'' (rs ++ ss) (rs' ++ ss')
Moves-append rs rs' ss ss' m n = record {
  same =
      λ x c e k. let (k1, k2) = All-split (Sep (node x)) rs ss k in n.same x c (m.same x c e k1) k2;
  owned = λ x c e k.
      let (k1, k2) = All-split (Sep (node x)) rs ss k in
      All-append (Sep (node x)) rs' ss' (m.owned x c e k1) (n.owned x c (m.same x c e k1) k2);
}

-- More may be changed than is.
pub Moves-weaken :
    {h h' : Heap} {rs ss ts : List Ref}
    → Moves h h' rs ts
    → ((x : ℕ) → All (Sep (node x)) ss → All (Sep (node x)) rs)
    → Moves h h' ss ts
Moves-weaken m f = record {
  same = λ x c e k. m.same x c e (f x k);
  owned = λ x c e k. m.owned x c e (f x k);
}

pub Moves-nothing :
    {h h' : Heap} (rs : List Ref) {ts : List Ref} → Moves h h' [] ts → Moves h h' rs ts
Moves-nothing rs m = Moves-weaken m (λ x k. tt)

-- Two parts, which one step then moves together.
pub Moves-join :
    {h1 h2 h3 h4 : Heap} (rs ss ts : List Ref)
    → Moves h1 h2 [] rs
    → Moves h2 h3 [] ss
    → Moves h3 h4 (rs ++ ss) ts
    → Moves h1 h4 [] ts
Moves-join rs ss ts m n o = Moves-trans (Moves-append [] rs [] ss m n) o

pub Moves-alloc :
    (h : Heap) (d : Cell) (rs : List Ref) → Moves h (h ++ d ∷ []) rs (node (length h) ∷ rs)
Moves-alloc h d rs = record {
  same = λ x c e k. get_old h x c d e;
  owned = λ x c e k. (new_address h x c e, k);
}

pub Moves-fresh : (h : Heap) (d : Cell) → Moves h (h ++ d ∷ []) [] (node (length h) ∷ [])
Moves-fresh h d = Moves-alloc h d []

pub Moves-set :
    (h : Heap) (a : ℕ) (d : Cell) (rs : List Ref) → Moves h (set h a d) (node a ∷ rs) (node a ∷ rs)
Moves-set h a d rs = record {
  same = λ x c e k. get-set_other h a x d k.0 ∙ e;
  owned = λ x c e k. k;
}

pub Clause-Placed : (h : Heap) (r : Ref) (ks : List KeyCondition) → Clause h r ks → Placed h r
Clause-Placed h (key k) ks c = tt
Clause-Placed h (node a) ks c = (_, c.0)
Clause-Placed h truth ks c = tt
Clause-Placed h falsity ks c = tt
Clause-Placed h absent ks c = tt

pub Clauses-Placed : (h : Heap) (rs : List Ref) (kss : Dnf) → Clauses h rs kss → All (Placed h) rs
Clauses-Placed h [] kss c = tt
Clauses-Placed h (r ∷ rs) [] c = elim c [ ]
Clauses-Placed h (r ∷ rs) (ks ∷ kss) c = (Clause-Placed h r ks c.0, Clauses-Placed h rs kss c.1)

module _ {h h' : Heap} {old new : List Ref} (m : Moves h h' old new) where
  pub Clause-kept :
      (r : Ref) (ks : List KeyCondition) → All (Sep r) old → Clause h r ks → Clause h' r ks
  Clause-kept (key k) ks s c = c
  Clause-kept (node a) ks s c = (m.same a _ c.0 s, c.1)
  Clause-kept truth ks s c = c
  Clause-kept falsity ks s c = c
  Clause-kept absent ks s c = c

  pub Clauses-kept :
      (rs : List Ref) (kss : Dnf) → Apart rs old → Clauses h rs kss → Clauses h' rs kss
  Clauses-kept [] [] s c = tt
  Clauses-kept [] (ks ∷ kss) s c = elim c [ ]
  Clauses-kept (r ∷ rs) [] s c = elim c [ ]
  Clauses-kept (r ∷ rs) (ks ∷ kss) s c = (Clause-kept r ks s.0 c.0, Clauses-kept rs kss s.1 c.1)

  everywhere : (P : Ref → Type 0) (rs : List Ref) → ((r : Ref) → P r) → All P rs
  everywhere P [] f = tt
  everywhere P (r ∷ rs) f = (f r, everywhere P rs f)

  pub Sep-owned : (r : Ref) → Placed h r → All (Sep r) old → All (Sep r) new
  Sep-owned (node a) p s = m.owned a p.0 p.1 s
  Sep-owned (key k) p s = everywhere (Sep (key k)) new (λ r. tt)
  Sep-owned truth p s = everywhere (Sep truth) new (λ r. tt)
  Sep-owned falsity p s = everywhere (Sep falsity) new (λ r. tt)
  Sep-owned absent p s = everywhere (Sep absent) new (λ r. tt)

  pub Apart-owned : (rs : List Ref) → All (Placed h) rs → Apart rs old → Apart rs new
  Apart-owned [] p s = tt
  Apart-owned (r ∷ rs) p s = (Sep-owned r p.0 s.0, Apart-owned rs p.1 s.1)

pub Apart-nothing : (rs : List Ref) → Apart rs []
Apart-nothing [] = tt
Apart-nothing (r ∷ rs) = (tt, Apart-nothing rs)

pub Apart-cons :
    (rs : List Ref) (s : Ref) (ss : List Ref)
    → All (λ r. Sep r s) rs
    → Apart rs ss
    → Apart rs (s ∷ ss)
Apart-cons [] s ss a b = tt
Apart-cons (r ∷ rs) s ss a b = ((a.0, b.0), Apart-cons rs s ss a.1 b.1)

pub Apart-sym : (rs ss : List Ref) → Apart rs ss → Apart ss rs
Apart-sym [] ss a = Apart-nothing ss
Apart-sym (r ∷ rs) ss a =
    Apart-cons ss r rs (All-map ss (λ s e. Sep-sym r s e) a.0) (Apart-sym rs ss a.1)

pub Distinct-append :
    (rs ss : List Ref) → Distinct rs → Distinct ss → Apart rs ss → Distinct (rs ++ ss)
Distinct-append [] ss d e a = e
Distinct-append (r ∷ rs) ss d e a =
    (All-append (Sep r) rs ss d.0 a.0, Distinct-append rs ss d.1 e a.1)

pub Clauses-append :
    (h : Heap) (rs ss : List Ref) (kss lss : Dnf)
    → Clauses h rs kss
    → Clauses h ss lss
    → Clauses h (rs ++ ss) (kss ++ lss)
Clauses-append h [] ss [] lss c d = d
Clauses-append h [] ss (ks ∷ kss) lss c d = elim c [ ]
Clauses-append h (r ∷ rs) ss [] lss c d = elim c [ ]
Clauses-append h (r ∷ rs) ss (ks ∷ kss) lss c d = (c.0, Clauses-append h rs ss kss lss c.1 d)
