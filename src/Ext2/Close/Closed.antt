-- ===== src/Ext2/Close/Closed.antt =====
-- `ext2_close`, and the calls on a file that is closed.
use embext.Base.{◌<◌, ◌≡◌, ◌≢◌, arith, some, length, bit_and}
use embext.Base.{pos, minus_one}
use embext.Driver.{BlockDriver, ok, failed, Wrote}
use embext.Ext2.Monad.{◌>>=◌}
use embext.Ext2.State.{Fs, embext_magic, ebadf, eio, ext2_flag_fs_dirty}
use embext.Ext2.Buffer.{buffer_sector, ext2_store_buffer}
use embext.Ext2.Buffer.Loaded.{stored, store-ready}
use embext.Ext2.Seek.{file}
use embext.Ext2.Close.{close_flushed, ext2_close}

-- The state with its file closed.
abbrev pub closed : {Device : Type 0} → Fs Device → Fs Device
closed s = record s { file = record s.file { magic = 0 } }

abbrev pub refused : {Device : Type 0} → Fs Device → Fs Device
refused s = record s { errno = ebadf }

module _ ⦃drv : BlockDriver⦄ where
  -- An open file whose buffer is clean and whose inode is unchanged is closed without a word to the
  -- device.
  pub ext2_close-clean :
      (s : Fs drv.Device)
      → s.file.magic ≡ embext_magic
      → s.file.buffer.dirty ≡ 0
      → bit_and s.file.flags ext2_flag_fs_dirty ≡ 0
      → ext2_close file s ≡ some (pos 0, closed s)
  unfolding ext2_close close_flushed ◌>>=◌
  ext2_close-clean s opened clean kept = ground (arith, opened, clean, kept)

  ran_closed :
      (s : Fs drv.Device) (d : drv.Device)
      → s.file.magic ≡ embext_magic
      → s.file.buffer.dirty ≢ 0
      → bit_and s.file.flags ext2_flag_fs_dirty ≡ 0
      → ext2_store_buffer s ≡ some (ok tt, stored s d)
      → ext2_close file s ≡ some (pos 0, closed (stored s d))
  unfolding ext2_close close_flushed ◌>>=◌
  ran_closed s d opened dirty kept e = ground (arith, opened, dirty, kept, e)

  -- An open file with a modified buffer of 512 bytes, whose sector lies on the device, and an
  -- unchanged inode: the buffer is written to its sector, where it reads back, no other sector is
  -- changed, and the file is closed.
  pub ext2_close-stored :
      (s : Fs drv.Device)
      → s.file.magic ≡ embext_magic
      → s.file.buffer.dirty ≢ 0
      → bit_and s.file.flags ext2_flag_fs_dirty ≡ 0
      → drv.IsReady s.volume.device
      → buffer_sector s.file s.volume.context < drv.volume_size s.volume.device
      → length s.file.buffer.buffer ≡ 512
      → (d : drv.Device) × (ext2_close file s ≡ some (pos 0, closed (stored s d)))
        × Wrote drv.IsReady drv.volume_size drv.read_only drv.block_read
            (buffer_sector s.file s.volume.context)
            s.file.buffer.buffer
            s.volume.device
            d
  ext2_close-stored s opened dirty kept ready inside sized =
      let (d, e, wrote) = store-ready s ready inside sized in
      (d, ran_closed s d opened dirty kept e, wrote)

  -- When the driver refuses the write of the modified buffer, the call fails with EIO, and the file
  -- stays open with its buffer modified.
  pub ext2_close-failed :
      (s : Fs drv.Device)
      → s.file.magic ≡ embext_magic
      → s.file.buffer.dirty ≢ 0
      → drv.block_write (buffer_sector s.file s.volume.context) s.file.buffer.buffer s.volume.device
        ≡ some failed
      → ext2_close file s
        ≡ some (minus_one, record s { file = record s.file { rerrno = eio }; errno = eio })
  unfolding ext2_close ext2_store_buffer ◌>>=◌
  ext2_close-failed s opened dirty e = ground (arith, opened, dirty, e)
