-- ===== src/Ext2/Bitmap/Device.antt =====
-- `ext2_change_allocated` as a whole: what it does to the bitmap on the device.
use embext.Base.{ℕ, ◌+◌, ◌/◌, ◌%◌, ◌<◌, ◌≡◌, ◌≢◌, Bool}
use embext.Base.{some, List, length}
use embext.Bytes.{AreBytes}
use embext.Driver.{BlockDriver, ok, Wrote, block_size}
use embext.Ext2.Layout.RoundTrip.{IsDescriptor}
use embext.Ext2.State.{Volume, u32}
use embext.Ext2.Group.Mounted.{IsMounted}
use embext.Ext2.Group.Read.{group_of}
use embext.Ext2.Bitmap.{count_free}
use embext.Ext2.Bitmap.Change.{Changed}

module _ ⦃drv : BlockDriver⦄ where
  -- The group and the bit of a block, and the sector of the device that is read and written for it.
  abbrev pub group_of_block : Volume drv.Device → ℕ → ℕ
  group_of_block v block = block / v.context.superblock.s_blocks_per_group

  abbrev pub bit_of_block : Volume drv.Device → ℕ → ℕ
  bit_of_block v block = block % v.context.superblock.s_blocks_per_group

  abbrev pub bitmap_sector : Volume drv.Device → ℕ → ℕ
  bitmap_sector v block = u32 (
      u32 (
        (group_of v (group_of_block v block)).bg_block_bitmap
        + bit_of_block v block / 8 / block_size)
      + v.context.part_start)

  -- A block of a mounted volume whose bitmap sector lies on the device and holds `bitmap`.
  pub record IsBitmap (v : Volume drv.Device) (block : ℕ) (bitmap : List ℕ) : Type 0 where
    pub mounted : IsMounted v
    pub per_group : v.context.superblock.s_blocks_per_group ≢ 0
    pub group : group_of_block v block < v.context.num_blockgroups
    pub descriptor : IsDescriptor (group_of v (group_of_block v block))
    pub inside : bitmap_sector v block < drv.volume_size v.device
    pub read : drv.block_read (bitmap_sector v block) v.device ≡ some (ok bitmap)
    pub sized : length bitmap ≡ 512
    pub bytes : AreBytes bitmap

  -- The outcome of a change.
  pub record IsAllocated (v : Volume drv.Device) (block : ℕ) (allocated : Bool) (bitmap : List ℕ)
      (v' : Volume drv.Device) : Type 0 where
    pub after : List ℕ
    pub bit : Changed allocated (bit_of_block v block) bitmap after
    pub wrote :
        Wrote drv.IsReady drv.volume_size drv.read_only drv.block_read
          (bitmap_sector v block)
          after
          v.device
          v'.device
    pub counted : v'.context.superblock ≡ count_free allocated v.context.superblock
    pub mounted : IsMounted v'
