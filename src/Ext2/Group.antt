-- ===== src/Ext2/Group.antt =====
-- Block group descriptors and the superblock: `ext2_get_bg_descriptor`,
-- `ext2_write_bg_descriptor` and `ext2_flush_superblock` of src/embext.c.
pub mod Unwritten
pub mod Mounted
pub mod Copy
pub mod Flush
pub mod Read
pub mod Success
use embext.Base.{ℕ, zero, suc, ◌+◌, ◌*◌, ◌/◌, ◌%◌, ◌^◌}
use embext.Base.{leb, if◌then◌else◌, slice, splice, replicate, get_elem?}
use embext.Driver.{Reply, ok, failed, BlockDriver, block_size}
use embext.Ext2.Layout.{BlockGroupDescriptor, read_descriptor, descriptor_bytes, superblock_bytes}
use embext.Ext2.Monad.{M, pure, ◌>>=◌, ◌>>◌, get, defined, set_context, set_superblock, on_reply}
use embext.Ext2.State.{Context, Volume}
use embext.Ext2.State.{ext2_block_size, u16, u32}
use embext.Ext2.Sector.{read_sysbuf, write_sysbuf}

-- `sizeof(struct block_group_descriptor)`, and how many stand in a sector.
abbrev pub descriptor_size : ℕ
descriptor_size = 32

abbrev pub descriptors_per_sector : ℕ
descriptors_per_sector = block_size / descriptor_size

-- The sector, from the start of the partition, that holds the descriptor of a group in the table
-- behind the superblock in `table_block`.
abbrev pub descriptor_lba : Context → ℕ → ℕ → ℕ
descriptor_lba context table_block block_group = u32 (
    u32 ((table_block + 1) * (ext2_block_size context / block_size))
    + block_group / descriptors_per_sector)

-- Where the descriptor starts in its sector.
abbrev pub descriptor_offset : ℕ → ℕ
descriptor_offset block_group = descriptor_size * (block_group % descriptors_per_sector)

-- The sector of the device that the copy of the superblock in a block is written to.
abbrev pub copy_sector : Context → ℕ → ℕ
copy_sector context superblock_block =
    u32
      (u32 (superblock_block * 2 ^ (context.superblock.s_log_block_size + 1)) + context.part_start)

module _ ⦃drv : BlockDriver⦄ where
  -- The reply carries the struct behind the pointer `bg`, which is left alone on failure.
  unfoldable pub ext2_get_bg_descriptor : ℕ → M (Volume drv.Device) (Reply BlockGroupDescriptor)
  ext2_get_bg_descriptor block_group = do
    v ← get
    let context = v.context
    if leb context.num_blockgroups block_group then pure failed else do
      let lba_block = descriptor_lba context context.superblock_block block_group
      read_sysbuf (u32 (lba_block + context.part_start))
      v ← get
      bytes ← defined (slice v.context.sysbuf (descriptor_offset block_group) descriptor_size)
      pure (ok (read_descriptor bytes))

  -- One round of the loop over the copies of the table.
  unfoldable pub write_copy : BlockGroupDescriptor → ℕ → ℕ → M (Volume drv.Device) (Unit {0})
  write_copy bg block_group i = do
    v ← get
    superblock_block ← defined (get_elem? v.context.superblock_blocks i)
    let lba_block = descriptor_lba v.context superblock_block block_group
    read_sysbuf (u32 (lba_block + v.context.part_start))
    v ← get
    sysbuf ← defined (splice v.context.sysbuf (descriptor_offset block_group) (descriptor_bytes bg))
    set_context (λ c. record c { sysbuf = sysbuf })

  -- The rounds left, from copy `i`.
  unfoldable pub write_copies : BlockGroupDescriptor → ℕ → ℕ → ℕ → M (Volume drv.Device) (Unit {0})
  write_copies bg block_group zero i = pure tt
  write_copies bg block_group (suc left) i = do
    write_copy bg block_group i
    write_copies bg block_group left (i + 1)

  unfoldable pub ext2_write_bg_descriptor :
      BlockGroupDescriptor → ℕ → M (Volume drv.Device) (Reply (Unit {0}))
  ext2_write_bg_descriptor bg block_group = do
    v ← get
    if leb v.context.num_blockgroups block_group
        then pure failed
        else do write_copies bg block_group v.context.num_superblocks 0; pure (ok tt)

  -- One round of the loop over the copies of the superblock.
  unfoldable pub flush_copy : ℕ → M (Volume drv.Device) (Unit {0})
  flush_copy i = do
    v ← get
    superblock_block ← defined (get_elem? v.context.superblock_blocks i)
    set_superblock (λ sb. record sb { s_block_group_nr = u16 superblock_block })
    v ← get
    sysbuf ← defined (splice v.context.sysbuf 0 (superblock_bytes v.context.superblock))
    set_context (λ c. record c { sysbuf = sysbuf })
    write_sysbuf (copy_sector v.context superblock_block)

  -- The rounds left, from copy `i`.
  unfoldable pub flush_copies : ℕ → ℕ → M (Volume drv.Device) (Unit {0})
  flush_copies zero i = pure tt
  flush_copies (suc left) i = do flush_copy i; flush_copies left (i + 1)

  unfoldable pub ext2_flush_superblock : M (Volume drv.Device) (Reply (Unit {0}))
  ext2_flush_superblock = do
    set_context (λ c. record c { sysbuf = replicate block_size 0 })
    v ← get
    flush_copies v.context.num_superblocks 0
    pure (ok tt)
