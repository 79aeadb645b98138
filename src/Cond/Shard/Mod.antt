-- ===== src/Cond/Shard/Mod.antt =====
-- `Shard` over `NumberMod`.
use dbpack.Common.{ℕ, ◌%◌, ◌≡◌, ◌⊎◌, refl, List, false}
use dbpack.Common.Int.{ℤ, pos}
use dbpack.Value.{Bytes}
use dbpack.Cond.{ok, Condition, In, equal_fold}
use dbpack.Cond.NumberMod.{NumberMod, number_mod}
use dbpack.Cond.NumberMod.Sound.{IsFull}
use dbpack.Cond.NumberMod.Interface.{number_mod-IsSound}
use dbpack.Cond.Shard.Spec.{Routable, Satisfies}
use dbpack.Cond.Shard.Sound.{shard-In}
use dbpack.Cond.Shard.{shard}

-- With `NumberMod` over a topology of `n` tables that has every index from 0 to `n - 1`: for a
-- routable condition over this algorithm and a row that satisfies it and has the natural number
-- `v` in its sharding column, `Shard` returns a list of tables, and `v % n` is in it.
pub number_mod_shard-In :
    (s : NumberMod) (f : IsFull s.topology) (c : Condition) (column : Bytes → ℤ) (v : ℕ)
    → Routable (number_mod-IsSound s f) c
    → ((k : Bytes) → (equal_fold s.sharding_key k ≡ false) ⊎ (column k ≡ pos v))
    → Satisfies column c
    → (xs : List ℤ) × (shard (number_mod s) c ≡ ok xs)
      × In (pos (v % s.topology.table_slice_len)) xs
unfolding number_mod number_mod-IsSound
number_mod_shard-In s f c column v h k sat =
    shard-In (number_mod s) (number_mod-IsSound s f) column (pos v)
      (pos (v % s.topology.table_slice_len)) c h (refl, k) sat
