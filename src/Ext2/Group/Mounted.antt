-- ===== src/Ext2/Group/Mounted.antt =====
-- What the functions on a mounted volume rely on: the driver is ready, and every sector that they
-- touch lies on the device.
use embext.Base.{ℕ, ◌+◌, ◌<◌, ◌≡◌, arith, some, length, get_elem?}
use embext.Driver.{BlockDriver}
use embext.Ext2.Layout.{Superblock}
use embext.Ext2.Layout.RoundTrip.{IsSuperblock}
use embext.Ext2.State.{Volume, Context, u16, u32}
use embext.Ext2.Group.{descriptor_lba, copy_sector}

-- The sector of the device with the descriptor of a group, in the table behind a superblock.
abbrev pub table_sector : Context → ℕ → ℕ → ℕ
table_sector context table_block block_group =
    u32 (descriptor_lba context table_block block_group + context.part_start)

pub record IsMounted ⦃drv : BlockDriver⦄ (v : Volume drv.Device) : Type 0 where
  pub ready : drv.IsReady v.device
  pub sysbuf_sized : length v.context.sysbuf ≡ 512
  pub superblock_fits : IsSuperblock v.context.superblock
  pub copies_listed : length v.context.superblock_blocks ≡ v.context.num_superblocks
  pub primary_inside :
      (g : ℕ)
      → g < v.context.num_blockgroups
      → table_sector v.context v.context.superblock_block g < drv.volume_size v.device
  pub tables_inside :
      (i b g : ℕ)
      → get_elem? v.context.superblock_blocks i ≡ some b
      → g < v.context.num_blockgroups
      → table_sector v.context b g < drv.volume_size v.device
  pub copies_inside :
      (i b : ℕ)
      → get_elem? v.context.superblock_blocks i ≡ some b
      → copy_sector v.context b < drv.volume_size v.device

-- The superblock as it is written to the copy in block `b`.
abbrev pub numbered : ℕ → Superblock → Superblock
numbered b sb = record sb { s_block_group_nr = u16 b }

pub numbered-IsSuperblock :
    (b : ℕ) (sb : Superblock) → IsSuperblock sb → IsSuperblock (numbered b sb)
numbered-IsSuperblock b sb is = omega arith
