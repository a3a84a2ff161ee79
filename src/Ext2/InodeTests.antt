-- ===== src/Ext2/InodeTests.antt =====
-- The theorems on inodes and writes, at a file of a small volume.
use embext.Base.{ℕ, ◌<◌, ◌≡◌, refl, arith, some, List}
use embext.Base.{replicate, slice, pos}
use embext.Bytes.{unpack, le_decode}
use embext.BlockPc.{
  Pc, past_end, byte_offset, block_read, block_get_volume_size, block_get_device_read_only,
}
use embext.BlockPc.Laws.{IsWhole, block_pc}
use embext.Driver.{ok, Wrote}
use embext.Ext2.Layout.{read_descriptor}
use embext.Ext2.Layout.RoundTrip.{IsInode}
use embext.Ext2.State.{Fs, ext2_block_size}
use embext.Ext2.Group.Read.{sector_bytes}
use embext.Ext2.Open.{ext2_open_inode}
use embext.Ext2.Open.Found.{inode_sector, on_inode, ext2_open_inode-on_inode}
use embext.Ext2.Close.{ext2_close, ext2_flush_inode}
use embext.Ext2.Close.Persisted.{descriptor_sector, ext2_close-ext2_open_inode}
use embext.Ext2.Close.Flush.{IsChanged}
use embext.Ext2.Close.Inode.{ext2_flush_inode-ext2_open_inode}
use embext.Ext2.Seek.{file}
use embext.Ext2.Sample.Sound.{small_volume-IsMounted, table_device-IsWhole}
use embext.Ext2.Sample.{table_device, table_fs, small_inode}

small_inode-IsInode : IsInode small_inode
small_inode-IsInode = record { pointers = refl; fit = omega arith }

-- Inode 5 is the first of sector 7.
inode_sector_of_five : inode_sector ⦃drv = block_pc⦄ table_fs 5 ≡ 7
unfolding ext2_block_size sector_bytes read_descriptor unpack le_decode block_read past_end
    byte_offset slice
inode_sector_of_five = refl

five_inside : inode_sector ⦃drv = block_pc⦄ table_fs 5 < block_get_volume_size table_device
unfolding block_get_volume_size
five_inside = omega (arith, inode_sector_of_five)

ext2_open_inode-on_inode_example :
    (sector : List ℕ) × (block_read (inode_sector ⦃drv = block_pc⦄ table_fs 5) table_device
      ≡ some (ok sector))
    × (ext2_open_inode ⦃drv = block_pc⦄ 5 table_fs
        ≡ some (ok tt, on_inode ⦃drv = block_pc⦄ table_fs 5 sector))
ext2_open_inode-on_inode_example =
    ext2_open_inode-on_inode ⦃drv = block_pc⦄ table_fs 5
      (small_volume-IsMounted table_device table_device-IsWhole refl) refl (omega arith)
      (omega arith) (omega arith) (omega arith) (omega arith) (omega arith) (omega arith)
      five_inside

table_fs-IsChanged : IsChanged ⦃drv = block_pc⦄ table_fs
unfolding ext2_block_size sector_bytes read_descriptor unpack le_decode block_read past_end
    byte_offset slice
table_fs-IsChanged = record {
  mounted = (small_volume-IsMounted table_device table_device-IsWhole refl);
  small_blocks = refl;
  inode_size = refl;
  per_group = omega arith;
  few_per_group = omega arith;
  number = omega arith;
  number_small = omega arith;
  counted = omega arith;
  group = omega arith;
  group_small = omega arith;
  block_small = omega arith;
  table_small = omega arith;
  inside = five_inside;
  apart = omega arith;
  changed = omega arith;
  clean = refl;
  fits = small_inode-IsInode;
}

ext2_flush_inode-ext2_open_inode_example :
    (s' : Fs Pc) × (s'' : Fs Pc) × (bytes : List ℕ) × (ext2_flush_inode ⦃drv = block_pc⦄ table_fs
      ≡ some (ok tt, s'))
    × (ext2_open_inode ⦃drv = block_pc⦄ 5 s' ≡ some (ok tt, s''))
    × (s''.file.inode ≡ small_inode)
    × Wrote IsWhole block_get_volume_size block_get_device_read_only block_read
        (inode_sector ⦃drv = block_pc⦄ table_fs 5)
        bytes
        table_device
        s'.volume.device
ext2_flush_inode-ext2_open_inode_example =
    ext2_flush_inode-ext2_open_inode ⦃drv = block_pc⦄ table_fs table_fs-IsChanged

-- The same with a modified buffer, for sector 6.
abbrev closing_fs : Fs Pc
closing_fs = record table_fs {
  file = record table_fs.file { buffer = record table_fs.file.buffer { dirty = 1 } };
}

descriptor_sector_of_five : descriptor_sector ⦃drv = block_pc⦄ closing_fs ≡ 4
unfolding ext2_block_size
descriptor_sector_of_five = refl

ext2_close-ext2_open_inode_example :
    (s' : Fs Pc) × (s'' : Fs Pc) × (ext2_close ⦃drv = block_pc⦄ file closing_fs ≡ some (pos 0, s'))
    × (s'.file.magic ≡ 0)
    × (block_read 6 s'.volume.device ≡ some (ok (replicate 512 9)))
    × (ext2_open_inode ⦃drv = block_pc⦄ 5 s' ≡ some (ok tt, s''))
    × (s''.file.inode ≡ small_inode)
ext2_close-ext2_open_inode_example =
    ext2_close-ext2_open_inode ⦃drv = block_pc⦄ closing_fs refl (omega arith) table_fs-IsChanged
      (unfold block_get_volume_size in omega arith) refl (omega (arith, inode_sector_of_five))
      (omega (arith, descriptor_sector_of_five))
