-- ===== src/Std/Handles.antt =====
-- The storage handles: src/target/std-evm/src/storage/handle.rs.
--
-- A handle carries no data; it is kept as what its type says, the layout and whether it is borrowed
-- for writing. A layout type is an element of `Layout`.

use rustevm.Base.{Bool, true, false}

pub record Storage (Layout : Type 0) : Type 0 where
  pub layout : Layout
  pub writable : Bool

pub record TransientStorage (Layout : Type 0) : Type 0 where
  pub layout : Layout
  pub writable : Bool

module _ {ℓ} {Layout : Type 0} {R : Type ℓ} where
  unfoldable pub with_storage : Layout → (Storage Layout → R) → R
  with_storage t f = f (record { layout = t; writable = false })

  unfoldable pub with_storage_mut : Layout → (Storage Layout → R) → R
  with_storage_mut t f = f (record { layout = t; writable = true })

  unfoldable pub with_transient_storage : Layout → (TransientStorage Layout → R) → R
  with_transient_storage t f = f (record { layout = t; writable = false })

  unfoldable pub with_transient_storage_mut : Layout → (TransientStorage Layout → R) → R
  with_transient_storage_mut t f = f (record { layout = t; writable = true })
