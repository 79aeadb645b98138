-- ===== src/Cond/Samples.antt =====
-- Four tables by the column "uid", for the runs of the routing.
use dbpack.Common.{[], ◌∷◌, true, arith}
use dbpack.Common.Int.{pos}
use dbpack.Value.{Bytes}
use dbpack.Cond.{Topology}
use dbpack.Cond.NumberMod.{NumberMod}
use dbpack.Cond.NumberMod.Sound.{IsFull}

abbrev pub four : Topology
four = record { table_slice = pos 0 ∷ pos 1 ∷ pos 2 ∷ pos 3 ∷ []; table_slice_len = 4 }

pub four-IsFull : IsFull four
four-IsFull = record {
  some_table = omega arith;
  few_tables = omega arith;
  each_index = λ j h. grind arith;
}

abbrev pub uid : Bytes
uid = b'u' ∷ b'i' ∷ b'd' ∷ []

abbrev pub by_uid : NumberMod
by_uid = record { sharding_key = uid; allow_full_scan = true; topology = four }
