-- ===== src/Cond/NumberRange/Sound.antt =====
-- The ranges that `Shard` of `NumberRange` selects.
use dbpack.Common.{
  ◌≡◌, ◌⊎◌, ◌↔◌, inl, inr, refl, sym, [], ◌∷◌, Bool, true, false, Bool-cases, arith,
}
use dbpack.Common.Int.{ℤ, ◌≤ℤ◌, ◌<ℤ◌, IsInt64}
use dbpack.Value.{Kind, integer}
use dbpack.Cond.{Op, eq, ne, lt, le, gt, ge, like, KeyCondition, In, Holds, equal_fold}
use dbpack.Cond.Sound.{Leads}
use dbpack.Cond.NumberMod.Sound.{number_of-int64}
use dbpack.Cond.NumberRange.{Range, Ranges, NumberRange, select, shard_op, range_shard}

-- An entry with the index `i` whose range has a property.
abbrev pub Entry : (Range → Type 0) → ℤ → Ranges → Type 0
Entry P i [] = ⊥
Entry P i ((k, r) ∷ rs) = ((i ≡ k) × P r) ⊎ Entry P i rs

-- The range holds `v`: its end does not belong to it. For `calculate` it does.
abbrev pub Within : ℤ → Range → Type 0
Within v r = (r.from ≤ℤ v) × (v <ℤ r.to)

abbrev pub Touches : ℤ → Range → Type 0
Touches v r = (r.from ≤ℤ v) × (v ≤ℤ r.to)

pub Entry-map :
    (P Q : Range → Type 0) (i : ℤ) (rs : Ranges)
    → ((r : Range) → P r → Q r)
    → Entry P i rs
    → Entry Q i rs
Entry-map P Q i [] f h = elim h [ ]
Entry-map P Q i ((k, r) ∷ rs) f (inl h) = inl (h.0, f r h.1)
Entry-map P Q i ((k, r) ∷ rs) f (inr h) = inr (Entry-map P Q i rs f h)

-- The loops of `Shard` and `ShardRange` append the indices of the ranges that pass the test, and no
-- others.
pub select-In :
    (test : Range → Bool) (i : ℤ) (rs : Ranges)
    → In i (select test rs) ↔ Entry (λ r. test r ≡ true) i rs
unfolding select
select-In test i [] = (λ h. h, λ h. h)
select-In test i ((k, r) ∷ rs) =
    let (f, g) = select-In test i rs in
    elim (Bool-cases (test r)) [
      | inl e ↦ (
        rw e (elim [ inl h ↦ inl (h, refl) | inr h ↦ inr (f h) ]),
        rw e (elim [ inl h ↦ inl h.0 | inr h ↦ inr (g h) ]),
      )
      | inr e ↦ (rw e (λ h. inr (f h)), rw e (elim [ inl h ↦ cc | inr h ↦ g h ]))
    ]

-- The entries that a test selects where a row of theirs satisfies the condition.
reached :
    (test : Range → Bool) (v i : ℤ) (rs : Ranges)
    → ((r : Range) → Within v r → test r ≡ true)
    → Entry (Within v) i rs
    → In i (select test rs)
reached test v i rs f h =
    (select-In test i rs).1 (Entry-map (Within v) (λ r. test r ≡ true) i rs f h)

shard_op-Leads :
    (rs : Ranges) (op : Op) (z v i : ℤ)
    → ¬ (op ≡ like)
    → Holds op z v
    → Entry (Within v) i rs
    → Leads (shard_op rs op z) i
unfolding shard_op
shard_op-Leads rs eq z v i n e h = reached _ v i rs (λ r w. rw (sym e) (ground arith)) h
shard_op-Leads rs ne z v i n e h = tt
shard_op-Leads rs lt z v i n e h = reached _ v i rs (λ r w. ground arith) h
shard_op-Leads rs le z v i n e h = reached _ v i rs (λ r w. ground arith) h
shard_op-Leads rs gt z v i n e h = reached _ v i rs (λ r w. ground arith) h
shard_op-Leads rs ge z v i n e h = reached _ v i rs (λ r w. ground arith) h
shard_op-Leads rs like z v i n e h = absurd (n refl)

-- `Shard` of `NumberRange` for a comparison with an int64, by any operator but LIKE, leads to
-- every index whose range holds a value that the comparison selects, in whatever order the loop
-- meets the ranges; if it is on another column, to every index whose range holds a value.
pub range_shard-Leads :
    {t : Kind} (s : NumberRange) (c : KeyCondition) (z v i : ℤ)
    → c.value ≡ integer t z
    → IsInt64 z
    → ¬ (c.op ≡ like)
    → (equal_fold s.sharding_key c.key ≡ false) ⊎ Holds c.op z v
    → Entry (Within v) i s.ranges
    → Leads (range_shard s c) i
unfolding range_shard
range_shard-Leads s c z v i e m n (inl k) h = rw k tt
range_shard-Leads s c z v i e m n (inr w) h = elim (Bool-cases (equal_fold s.sharding_key c.key)) [
  | inl k ↦ rw (k, number_of-int64 c z e m) (shard_op-Leads s.ranges c.op z v i n w h)
  | inr k ↦ rw k tt
]
