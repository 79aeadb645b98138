-- ===== src/Topo/Examples.antt =====
-- Runs of `ParseTopology`, and its theorems at a concrete topology: "0-1" and "2".
use dbpack.Common.{
  ℕ, zero, suc, ◌^◌, ◌<◌, ◌≡◌, ◌⊎◌, inl, inr, refl, List, [], ◌∷◌, Bool, true, false, length, arith,
}
use dbpack.Common.Int.{ℤ, pos}
use dbpack.Value.{Bytes}
use dbpack.Cond.{Result, ok}
use dbpack.Cond.NumberMod.Sound.{IsFull}
use dbpack.Topo.Sound.{IsSoundTopology, parse_topology-IsSound}
use dbpack.Topo.Full.{parse_topology-IsFull}
use dbpack.Topo.{Topology, routing, parse_topology}

abbrev db : Bytes
db = b'd' ∷ []

abbrev tb : Bytes
tb = b't' ∷ []

abbrev d : ℕ → Bytes
d n = b'd' ∷ b'_' ∷ n ∷ []

abbrev t : ℕ → Bytes
t n = b't' ∷ b'_' ∷ n ∷ []

abbrev config : List (ℤ × Bytes)
config = (pos 1, b'2' ∷ []) ∷ (pos 0, b'0' ∷ b'-' ∷ b'1' ∷ []) ∷ []

abbrev parsed : Topology
parsed = record {
  db_name = db;
  table_name = tb;
  dbs = (d b'0', t b'0' ∷ t b'1' ∷ []) ∷ (d b'1', t b'2' ∷ []) ∷ [];
  tables = (t b'0', d b'0') ∷ (t b'1', d b'0') ∷ (t b'2', d b'1') ∷ [];
  table_index_map = (pos 0, t b'0') ∷ (pos 1, t b'1') ∷ (pos 2, t b'2') ∷ [];
  table_slice = pos 0 ∷ pos 1 ∷ pos 2 ∷ [];
  table_slice_len = 3;
}

parse_config : parse_topology db tb config ≡ ok parsed
unfolding parse_topology dbpack.Value.parse_int dbpack.Value.all_digits dbpack.Value.format_int
    dbpack.Value.decimal dbpack.Value.text_eq dbpack.Common.Int.add64 dbpack.Common.Int.sub64
parse_config = refl

-- The table 0 twice and no table 1: the test of the greatest index lets it pass.
abbrev doubled : List (ℤ × Bytes)
doubled = (pos 0, b'0' ∷ []) ∷ (pos 1, b'0' ∷ []) ∷ (pos 2, b'2' ∷ []) ∷ []

abbrev indices_in : Result Topology → List ℤ
indices_in (ok u) = u.table_slice
indices_in _ = []

doubled_accepted : indices_in (parse_topology db tb doubled) ≡ pos 0 ∷ pos 0 ∷ pos 2 ∷ []
unfolding parse_topology dbpack.Value.parse_int dbpack.Value.all_digits dbpack.Value.format_int
    dbpack.Value.decimal dbpack.Value.text_eq dbpack.Common.Int.add64 dbpack.Common.Int.sub64
doubled_accepted = refl

parse_topology-IsSound_example : IsSoundTopology tb parsed
parse_topology-IsSound_example =
    parse_topology-IsSound db tb config parsed parse_config (omega arith)

parse_topology-IsFull_example : IsFull (routing parsed)
parse_topology-IsFull_example =
    parse_topology-IsFull db tb config parsed parse_config (omega arith) (
      (elim [ inl e ↦ cc | inr (inl e) ↦ cc | inr (inr e) ↦ elim e [ ] ]),
      ((elim [ inl e ↦ cc | inr e ↦ elim e [ ] ]), ((λ h. h), tt)),
    )
