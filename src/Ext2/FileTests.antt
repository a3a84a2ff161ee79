-- ===== src/Ext2/FileTests.antt =====
-- The theorems on an open file, at a file of a small volume.
use embext.Base.{ℕ, ◌+◌, ◌≡◌, refl, arith, some, none, List}
use embext.Base.{replicate, take, drop, slice, leb, if◌then◌else◌, pos}
use embext.BlockPc.{
  Pc, past_end, byte_offset, block_read, block_get_volume_size, block_get_device_read_only,
}
use embext.BlockPc.Laws.{IsWhole, block_pc}
use embext.Driver.{ok, Wrote}
use embext.Ext2.Buffer.{ext2_load_buffer, lba_of}
use embext.Ext2.Buffer.Loaded.{loaded, stored, load_sector, load-dirty}
use embext.Ext2.Seek.{file, ext2_lseek}
use embext.Ext2.Transfer.{ext2_read}
use embext.Ext2.Transfer.Selected.{IsAtDirect, under_cursor}
use embext.Ext2.Transfer.Direct.{accessed, ext2_read-sector}
use embext.Ext2.Close.{ext2_close}
use embext.Ext2.Close.Closed.{closed, ext2_close-stored}
use embext.Ext2.Monad.{◌>>=◌}
use embext.Ext2.State.{Fs}
use embext.Ext2.Reading.Quiet.{IsReading}
use embext.Ext2.Reading.Session.{Session, reads, seeks, done, goes_on, Session-IsReading}
use embext.Ext2.Sample.Sound.{eight_sectors-IsWhole}
use embext.Ext2.Sample.{eight_sectors, small_fs, modified_fs}
use embext.Ext2.State.{ext2_block_size}

small_fs-IsAtDirect : IsAtDirect ⦃drv = block_pc⦄ small_fs 3 (replicate 512 7)
unfolding block_read past_end byte_offset slice ext2_block_size
small_fs-IsAtDirect = record {
  opened = refl;
  small_blocks = refl;
  pointers = refl;
  below = omega arith;
  pointer = refl;
  allocated = omega arith;
  clean = refl;
  read = refl;
  sized = refl;
}

ext2_read-sector_example : ext2_read ⦃drv = block_pc⦄ file 10 small_fs ≡ (
    if leb (5 + 10) 512
    then some (
      record { returned = pos 10; bytes = take 10 (drop 5 (replicate 512 7)) },
      accessed (under_cursor ⦃drv = block_pc⦄ small_fs 3 (replicate 512 7)) 10,
    )
    else none)
ext2_read-sector_example =
    ext2_read-sector ⦃drv = block_pc⦄ small_fs 3 10 (replicate 512 7) small_fs-IsAtDirect
      (omega arith) (omega arith)

ext2_close-stored_example :
    (d : Pc) × (ext2_close ⦃drv = block_pc⦄ file modified_fs
      ≡ some (pos 0, closed (stored modified_fs d)))
    × Wrote IsWhole block_get_volume_size block_get_device_read_only block_read 6
        (replicate 512 9)
        eight_sectors
        d
ext2_close-stored_example =
    ext2_close-stored ⦃drv = block_pc⦄ modified_fs refl (omega arith) refl eight_sectors-IsWhole
      (unfold block_get_volume_size in omega arith) refl

load-dirty_example :
    (d : Pc) × (bytes : List ℕ) × (ext2_load_buffer ⦃drv = block_pc⦄ 2 600 modified_fs
      ≡ some (ok tt, loaded (stored modified_fs d) (lba_of modified_fs.volume.context 2 600) bytes))
    × (block_read (load_sector modified_fs 2 600) d ≡ some (ok bytes))
    × Wrote IsWhole block_get_volume_size block_get_device_read_only block_read 6
        (replicate 512 9)
        eight_sectors
        d
unfolding ext2_block_size
load-dirty_example =
    load-dirty ⦃drv = block_pc⦄ modified_fs 2 600 eight_sectors-IsWhole (omega arith)
      (unfold block_get_volume_size in omega arith) refl
      (unfold block_get_volume_size in omega arith)

-- A read of ten bytes, and a step back to the start.
abbrev after_read : Fs Pc
after_read = accessed (under_cursor ⦃drv = block_pc⦄ small_fs 3 (replicate 512 7)) 10

abbrev at_start : Fs Pc
at_start = record after_read { file = record after_read.file { cursor = 0 } }

seek_back : ext2_lseek file (pos 0) 0 after_read ≡ some (pos 0, at_start)
unfolding ext2_lseek ◌>>=◌
seek_back = refl

reading-Session : Session ⦃drv = block_pc⦄ small_fs at_start
reading-Session =
    goes_on small_fs after_read at_start
      (reads small_fs after_read file 10 _ (
        ext2_read-sector ⦃drv = block_pc⦄ small_fs 3 10 (replicate 512 7) small_fs-IsAtDirect
          (omega arith) (omega arith)))
      (goes_on after_read at_start at_start
        (seeks after_read at_start file (pos 0) 0 (pos 0) seek_back) (done at_start))

Session-IsReading_example : IsReading eight_sectors at_start
Session-IsReading_example =
    Session-IsReading ⦃drv = block_pc⦄ eight_sectors small_fs at_start
      (record { same_device = refl; clean = refl; reader = refl }) reading-Session
