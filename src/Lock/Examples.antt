-- ===== src/Lock/Examples.antt =====
-- Runs of lock keys, and their theorem at concrete rows.
use dbpack.Common.{◌≡◌, refl, [], ◌∷◌, none, some}
use dbpack.Value.{Bytes}
use dbpack.Lock.{Field, TableRecords, pk_fields, build_lock_key, collect_row_keys}
use dbpack.Lock.Keys.{row_keys, collect_row_keys-build_lock_key}

abbrev id : Bytes → Field
id value = record { name = b'I' ∷ b'd' ∷ []; value = value }

abbrev city : Field
city = record { name = b'c' ∷ []; value = b'x' ∷ [] }

abbrev records : TableRecords
records = record {
  table_name = b't' ∷ [];
  pk_name = b'i' ∷ b'd' ∷ [];
  rows = (city ∷ id (b'7' ∷ []) ∷ []) ∷ (id (b'8' ∷ []) ∷ city ∷ []) ∷ [];
}

built : build_lock_key records ≡ b't' ∷ b':' ∷ b'7' ∷ b',' ∷ b'8' ∷ []
unfolding build_lock_key
built = refl

-- A part without a colon drops the keys of the parts before it.
dropped : collect_row_keys (b't' ∷ b':' ∷ b'7' ∷ b';' ∷ b'u' ∷ []) (b'd' ∷ []) ≡ none
unfolding collect_row_keys
dropped = refl

collect_row_keys-build_lock_key_example :
    collect_row_keys (build_lock_key records) (b'd' ∷ [])
    ≡ some (row_keys (b'd' ∷ []) (b't' ∷ []) (id (b'7' ∷ []) ∷ id (b'8' ∷ []) ∷ []))
unfolding pk_fields
collect_row_keys-build_lock_key_example =
    collect_row_keys-build_lock_key records (b'd' ∷ []) (id (b'7' ∷ [])) (id (b'8' ∷ []) ∷ [])
      (refl, tt) (refl, tt) refl
      (((λ e. cc), (refl, tt), (refl, tt)), (((λ e. cc), (refl, tt), (refl, tt)), tt))
