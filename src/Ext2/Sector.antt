-- ===== src/Ext2/Sector.antt =====
-- The calls of the block driver: through `sysbuf` and through the buffer of a file.
use embext.Base.{ℕ, none, some}
use embext.Driver.{ok, failed, BlockDriver}
use embext.Ext2.Monad.{M}
use embext.Ext2.State.{Volume}

module _ ⦃drv : BlockDriver⦄ where
  -- `block_read(sector, context->sysbuf)`, its result ignored: a failed read leaves `sysbuf`.
  unfoldable pub read_sysbuf : ℕ → M (Volume drv.Device) (Unit {0})
  read_sysbuf sector v = elim (drv.block_read sector v.device) [
    | none ↦ none
    | some (ok bytes) ↦ some (tt, record v { context = record v.context { sysbuf = bytes } })
    | some failed ↦ some (tt, v)
  ]

  -- `block_write(sector, context->sysbuf)`, its result ignored: a failed write leaves the device.
  unfoldable pub write_sysbuf : ℕ → M (Volume drv.Device) (Unit {0})
  write_sysbuf sector v = elim (drv.block_write sector v.context.sysbuf v.device) [
    | none ↦ none
    | some (ok d) ↦ some (tt, record v { device = d })
    | some failed ↦ some (tt, v)
  ]
