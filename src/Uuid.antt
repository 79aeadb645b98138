-- ===== src/Uuid.antt =====
-- Unique numbers, package pkg/misc/uuid: id_worker.go and snowflake.go.
pub mod Bits
pub mod Distinct
pub mod Segment
mod Examples
use dbpack.Common.{
  ℕ, zero, suc, ◌+◌, ◌-◌, ◌*◌, ◌%◌, ◌^◌, List, [], ◌∷◌, Bool, true, false, ◌||◌, not, if◌then◌else◌,
  Option, none, some,
}
use Prim.Native.Nat.{bit_or}
use dbpack.Common.Int.{ℤ, pos, negsuc, pos_part, neg_part, sub_ℕ, ltb_ℤ, ◌==ℤ◌, wrap64}

-- `epoch`, in milliseconds.
abbrev pub epoch : ℕ
epoch = 1588435200000

-- The variables of the package: `timestampAndSequence`, a uint64, and `workerID`, an int64.
pub record Package : Type 0 where
  pub timestamp_and_sequence : ℕ
  pub worker_id : ℤ

-- `getNewestTimestamp`, where `now` is the time in milliseconds, on uint64.
unfoldable pub newest_timestamp : ℕ → ℕ
newest_timestamp now = (now + (2 ^ 64 - epoch)) % 2 ^ 64

-- `timestamp << sequenceBits`
unfoldable pub with_sequence : ℕ → ℕ
with_sequence timestamp = timestamp * 2 ^ 12 % 2 ^ 64

-- `serverNode << (timestampBits + sequenceBits)` on int64.
unfoldable pub shifted : ℤ → ℤ
shifted node = wrap64 (sub_ℕ (pos_part node * 2 ^ 53) (neg_part node * 2 ^ 53))

-- A network interface: it is up, it is a loopback, and its hardware address.
pub record Interface : Type 0 where
  pub is_up : Bool
  pub is_loopback : Bool
  pub hardware_addr : List ℕ

-- The result of the search for an address; reading past the end of one panics.
pub data Mac : Type 0 where
  found : ℕ → Mac
  not_found out_of_range : Mac

-- The lowest ten bits of an address.
unfoldable pub low_bits : List ℕ → Mac
low_bits (a ∷ b ∷ c ∷ d ∷ e ∷ f ∷ rest) = found (bit_or (e % 4 * 2 ^ 8) (f % 256))
low_bits _ = out_of_range

-- `generateWorkerIDBaseOnMac`
unfoldable pub worker_id_of_mac : List Interface → Mac
unfolding low_bits
worker_id_of_mac [] = not_found
worker_id_of_mac (i ∷ is) =
    let rest = worker_id_of_mac is in
    if not i.is_up || i.is_loopback then rest else low_bits i.hardware_addr

-- `generateWorkerID`, where `random` is the number that the random generator returns; none is a panic.
unfoldable pub generate_worker_id : List Interface → ℕ → Option ℤ
unfolding worker_id_of_mac
generate_worker_id ifaces random = elim (worker_id_of_mac ifaces) [
  | found n ↦ some (pos n)
  | not_found ↦ some (pos random)
  | out_of_range ↦ none
]

-- The package as it starts: `workerID`, and `init`.
unfoldable pub start : ℕ → ℤ → Package
start now generated = record {
  timestamp_and_sequence = with_sequence (newest_timestamp now);
  worker_id = shifted generated;
}

-- The test of `Init` and of `NewWorker`: an id from 0 to 1023.
unfoldable pub out_of_bounds : ℤ → Bool
out_of_bounds id = ltb_ℤ (pos 1023) id || ltb_ℤ id (pos 0)

-- `Init`; none is its error.
unfoldable pub init_worker : ℤ → Package → Option Package
unfolding out_of_bounds shifted
init_worker server_node p =
    if out_of_bounds server_node then none else some (record p { worker_id = shifted server_node })

-- The uint64 with the bits of an int64.
unfoldable pub to_uint64 : ℤ → ℕ
to_uint64 (pos n) = n
to_uint64 (negsuc n) = 2 ^ 64 - 1 - n

-- `int64(uint64(workerID) | (next & timestampAndSequenceMask))`: the mask keeps 53 bits.
unfoldable pub id_of : ℤ → ℕ → ℤ
unfolding to_uint64
id_of worker next = wrap64 (pos (bit_or (to_uint64 worker) (next % 2 ^ 53)))

-- `atomic.AddUint64(&counter, 1)`
unfoldable pub incremented : ℕ → ℕ
incremented counter = (counter + 1) % 2 ^ 64

-- `NextID` of the package.
unfoldable pub next_id : Package → ℤ × Package
unfolding incremented id_of
next_id p =
    let next = incremented p.timestamp_and_sequence in
    (id_of p.worker_id next, record p { timestamp_and_sequence = next })

pub record SnowflakeWorker : Type 0 where
  pub worker_id : ℤ
  pub timestamp_and_sequence : ℕ

-- `NewWorker`, where `generated` is what `generateWorkerID` returns if it is called.
unfoldable pub new_worker : ℤ → ℕ → ℤ → Package → Option (SnowflakeWorker × Package)
unfolding out_of_bounds with_sequence newest_timestamp
new_worker id now generated p =
    let counter = with_sequence (newest_timestamp now) in
    if out_of_bounds id
    then none
    else some (
      record { worker_id = id; timestamp_and_sequence = counter },
      record {
        worker_id = if id ==ℤ pos 0 then generated else p.worker_id;
        timestamp_and_sequence = counter;
      },
    )

-- `SnowflakeWorker.NextID`: the worker id that it reads is that of the package.
unfoldable pub snowflake_next_id : Package → SnowflakeWorker → ℤ × SnowflakeWorker
unfolding incremented id_of
snowflake_next_id p w =
    let next = incremented w.timestamp_and_sequence in
    (id_of p.worker_id next, record w { timestamp_and_sequence = next })
