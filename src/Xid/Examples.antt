-- ===== src/Xid/Examples.antt =====
-- Runs of `GetTransactionID`, and its theorem at a concrete input.
use dbpack.Common.{◌≡◌, refl, [], ◌∷◌}
use dbpack.Common.Int.{negsuc}
use dbpack.Xid.{get_transaction_id}

-- A text that ends in a slash has no id.
no_id : get_transaction_id (b'g' ∷ b's' ∷ b'/' ∷ []) ≡ negsuc 0
unfolding get_transaction_id
no_id = refl
