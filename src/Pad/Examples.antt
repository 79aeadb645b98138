-- ===== src/Pad/Examples.antt =====
-- The theorems on padding at concrete inputs.
use dbpack.Common.{[], ◌∷◌}
use dbpack.Value.{Bytes}

abbrev word : Bytes
word = b'h' ∷ b'i' ∷ []

abbrev mark : Bytes
mark = b'?' ∷ b'!' ∷ []
