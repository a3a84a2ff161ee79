-- ===== src/Ext2/Truncate.antt =====
-- `ext2_truncate_file` of src/embext.c. The results of its calls are ignored.
pub mod One
use embext.Base.{ℕ, zero, suc, ◌+◌, ◌*◌, false, Bool, not, bit_and, ◌==◌, if◌then◌else◌, set}
use embext.Driver.{Reply, ok, BlockDriver}
use embext.Ext2.Monad.{M, pure, ◌>>=◌, ◌>>◌, get, on_volume, set_file}
use embext.Ext2.State.{FileEnt, Fs, ext2_s_ifdir}
use embext.Ext2.Bitmap.{ext2_change_allocated}
use embext.Ext2.BlockMap.{indirect_entries, read_pointer, inode_pointer}

-- `fe->inode.i_block[i] = 0`
abbrev pub clear_pointer : ℕ → FileEnt → FileEnt
clear_pointer i fe = record fe { inode = record fe.inode { i_block = set fe.inode.i_block i 0 } }

module _ ⦃drv : BlockDriver⦄ where
  -- `ext2_change_allocated(fe->context, block, EXT2_DEALLOCATED, isdir)`
  unfoldable pub free_block : Bool → ℕ → M (Fs drv.Device) (Unit {0})
  free_block isdir block = do _ ← on_volume (ext2_change_allocated block false isdir); pure tt

  -- The loop over the first twelve pointers, with the rounds left.
  unfoldable pub free_direct : Bool → ℕ → ℕ → M (Fs drv.Device) (Unit {0})
  free_direct isdir zero i = pure tt
  free_direct isdir (suc left) i = do
    block ← inode_pointer i
    (if block == 0 then pure tt else free_block isdir block)
    set_file (clear_pointer i)
    free_direct isdir left (i + 1)

  -- A loop over the pointers of a block, which ends at the first pointer that is 0: `table` gives
  -- the number of that block in each round, and `visit` is the body.
  unfoldable pub free_entries :
      M (Fs drv.Device) ℕ
      → (ℕ → M (Fs drv.Device) (Unit {0}))
      → ℕ
      → ℕ
      → M (Fs drv.Device) (Unit {0})
  free_entries table visit zero i = pure tt
  free_entries table visit (suc left) i = do
    block ← table
    block ← read_pointer block i
    if block == 0 then pure tt else do visit block; free_entries table visit left (i + 1)

  -- The bodies of the loops: a block, a block of `n` pointers with what it leads to.
  unfoldable pub free_single : Bool → ℕ → ℕ → M (Fs drv.Device) (Unit {0})
  free_single isdir n block = do
    free_entries (pure block) (free_block isdir) n 0
    free_block isdir block

  -- The innermost loop of the triple indirect part reads through `block`, the outer block, and not
  -- through `block2`.
  unfoldable pub free_double : Bool → ℕ → ℕ → M (Fs drv.Device) (Unit {0})
  free_double isdir n block = do
    free_entries (pure block)
        (λ block2. do free_entries (pure block) (free_block isdir) n 0; free_block isdir block2) n 0
    free_block isdir block

  -- The part for `i_block[i]`, whose loop reads through `i_block[through]`.
  unfoldable pub free_indirect :
      Bool → ℕ → ℕ → (ℕ → M (Fs drv.Device) (Unit {0})) → ℕ → M (Fs drv.Device) (Unit {0})
  free_indirect isdir i through visit n = do
    top ← inode_pointer i
    if top == 0 then pure tt else do
      free_entries (inode_pointer through) visit n 0
      top ← inode_pointer i
      free_block isdir top
      set_file (clear_pointer i)

  -- The triple indirect part reads through `i_block[13]`.
  unfoldable pub ext2_truncate_file : M (Fs drv.Device) (Reply (Unit {0}))
  ext2_truncate_file = do
    s ← get
    let n = indirect_entries s.volume.context
    let isdir = not (bit_and s.file.inode.i_mode ext2_s_ifdir == 0)
    free_direct isdir 12 0
    free_indirect isdir 12 12 (free_block isdir) n
    free_indirect isdir 13 13 (free_single isdir n) n
    free_indirect isdir 14 13 (free_double isdir n) n
    set_file (λ fe. record fe { inode = record fe.inode { i_size = 0; i_blocks = 0 } })
    pure (ok tt)
