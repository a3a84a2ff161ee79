-- ===== src/Ext2/Open.antt =====
-- `ext2_open_inode` of src/embext.c.
pub mod Found
use embext.Base.{ℕ, ◌+◌, ◌-◌, ◌*◌, ◌/◌, ◌%◌, ◌^◌, ltb, ◌==◌, if◌then◌else◌, slice}
use embext.Driver.{Reply, ok, failed, BlockDriver, block_size}
use embext.Fault.{checked_div, checked_mod}
use embext.Ext2.Layout.{Superblock, read_descriptor, read_inode}
use embext.Ext2.Monad.{M, pure, ◌>>=◌, ◌>>◌, get, defined, on_volume, set_file}
use embext.Ext2.State.{Context, Fs, u32, ext2_flag_read}
use embext.Ext2.Sector.{read_sysbuf}

-- `block << (s_log_block_size + 1)`: the first sector of a block.
abbrev pub first_sector : Superblock → ℕ → ℕ
first_sector sb block = u32 (block * 2 ^ (sb.s_log_block_size + 1))

-- The sectors, from the start of the partition, of the descriptor of a group and of an inode in the
-- table of its group, `per_sector` of them to a sector.
abbrev pub bg_block : Context → ℕ → ℕ
bg_block context block_group = u32 (
    first_sector context.superblock (u32 (context.superblock_block + 1))
    + u32 (block_group * 32) / block_size)

abbrev pub inode_block : Context → ℕ → ℕ → ℕ
inode_block context inode_table sectors_in =
    u32 (first_sector context.superblock inode_table + sectors_in)

module _ ⦃drv : BlockDriver⦄ where
  -- Behind the check of the number.
  unfoldable pub load_inode : ℕ → ℕ → ℕ → M (Fs drv.Device) (Reply (Unit {0}))
  load_inode inode block_group inode_index = do
    s ← get
    let context = s.volume.context
    let inode_size = context.superblock.s_inode_size
    on_volume (read_sysbuf (u32 (bg_block context block_group + context.part_start)))
    s ← get
    bytes ← defined (slice s.volume.context.sysbuf (u32 (block_group * 32) % block_size) 32)
    per_sector ← defined (checked_div block_size inode_size)
    sectors_in ← defined (checked_div inode_index per_sector)
    index_in ← defined (checked_mod inode_index per_sector)
    let inode_table = (read_descriptor bytes).bg_inode_table
    on_volume (read_sysbuf (u32 (inode_block context inode_table sectors_in + context.part_start)))
    s ← get
    bytes ← defined (slice s.volume.context.sysbuf (index_in * inode_size) 128)
    set_file (λ fe. record fe {
      inode = read_inode bytes;
      inode_number = inode;
      flags = ext2_flag_read;
      cursor = 0;
    })
    pure (ok tt)

  unfoldable pub ext2_open_inode : ℕ → M (Fs drv.Device) (Reply (Unit {0}))
  ext2_open_inode inode = do
    s ← get
    let sb = s.volume.context.superblock
    let index = u32 (inode + 2 ^ 32 - 1)
    block_group ← defined (checked_div index sb.s_inodes_per_group)
    inode_index ← defined (checked_mod index sb.s_inodes_per_group)
    if ltb sb.s_inodes_count inode
        then pure failed
        else if inode == 0
        then pure failed
        else load_inode inode block_group inode_index
