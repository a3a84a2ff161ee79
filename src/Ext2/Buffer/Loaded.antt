-- ===== src/Ext2/Buffer/Loaded.antt =====
-- What `ext2_load_buffer` and `ext2_store_buffer` leave in the buffer and on the device.
use embext.Base.{ℕ, ◌+◌, ◌<◌, ◌≡◌, ◌≢◌, arith, some, List, length}
use embext.Driver.{BlockDriver, ok, Wrote}
use embext.Ext2.Monad.{◌>>=◌}
use embext.Ext2.State.{Fs, u32}
use embext.Ext2.Buffer.{lba_of, buffer_sector, set_buffer, fill_buffer, flush_dirty}
use embext.Ext2.Buffer.{ext2_store_buffer, ext2_load_buffer}

-- The state with a sector in the buffer of its file.
abbrev pub loaded : {Device : Type 0} → Fs Device → ℕ → List ℕ → Fs Device
loaded s lba bytes = record s {
  file = set_buffer (λ b. record b { buffer = bytes; lba_block = lba }) s.file;
}

-- The state with the buffer of its file written back to a device.
abbrev pub stored : {Device : Type 0} → Fs Device → Device → Fs Device
stored s d = record s {
  volume = record s.volume { device = d };
  file = set_buffer (λ b. record b { dirty = 0 }) s.file;
}

-- The sector of the device that `ext2_load_buffer` reads.
abbrev pub load_sector : {Device : Type 0} → Fs Device → ℕ → ℕ → ℕ
load_sector s block_number offset =
    u32 (lba_of s.volume.context block_number offset + s.volume.context.part_start)

module _ ⦃drv : BlockDriver⦄ where
  pub load-clean :
      (s : Fs drv.Device) (block_number offset : ℕ) (bytes : List ℕ)
      → s.file.buffer.dirty ≡ 0
      → drv.block_read (load_sector s block_number offset) s.volume.device ≡ some (ok bytes)
      → ext2_load_buffer block_number offset s
        ≡ some (ok tt, loaded s (lba_of s.volume.context block_number offset) bytes)
  unfolding ext2_load_buffer flush_dirty fill_buffer ◌>>=◌
  load-clean s block_number offset bytes clean e = ground (arith, clean, e)

  pub store-ready :
      (s : Fs drv.Device)
      → drv.IsReady s.volume.device
      → buffer_sector s.file s.volume.context < drv.volume_size s.volume.device
      → length s.file.buffer.buffer ≡ 512
      → (d : drv.Device) × (ext2_store_buffer s ≡ some (ok tt, stored s d))
        × Wrote drv.IsReady drv.volume_size drv.read_only drv.block_read
            (buffer_sector s.file s.volume.context)
            s.file.buffer.buffer
            s.volume.device
            d
  unfolding ext2_store_buffer
  store-ready s ready inside sized =
      let (d, e, wrote) =
        drv.write_inside s.volume.device (buffer_sector s.file s.volume.context)
          s.file.buffer.buffer ready inside sized in
      (d, rw (e, ext2_store_buffer), wrote)

  pub load_through :
      (s : Fs drv.Device) (d : drv.Device) (block_number offset : ℕ) (bytes : List ℕ)
      → s.file.buffer.dirty ≢ 0
      → ext2_store_buffer s ≡ some (ok tt, stored s d)
      → drv.block_read (load_sector s block_number offset) d ≡ some (ok bytes)
      → ext2_load_buffer block_number offset s
        ≡ some (ok tt, loaded (stored s d) (lba_of s.volume.context block_number offset) bytes)
  unfolding ext2_load_buffer flush_dirty fill_buffer ◌>>=◌
  load_through s d block_number offset bytes dirty store read = ground (arith, dirty, store, read)

  -- Loading another sector through a modified buffer of 512 bytes, both sectors on a device
  -- that is ready, succeeds: the buffer is written to its own sector and no other, and then
  -- holds what the device has in the sector asked for.
  pub load-dirty :
      (s : Fs drv.Device) (block_number offset : ℕ)
      → drv.IsReady s.volume.device
      → s.file.buffer.dirty ≢ 0
      → buffer_sector s.file s.volume.context < drv.volume_size s.volume.device
      → length s.file.buffer.buffer ≡ 512
      → load_sector s block_number offset < drv.volume_size s.volume.device
      → (d : drv.Device) × (bytes : List ℕ) × (ext2_load_buffer block_number offset s
          ≡ some (ok tt, loaded (stored s d) (lba_of s.volume.context block_number offset) bytes))
        × (drv.block_read (load_sector s block_number offset) d ≡ some (ok bytes))
        × Wrote drv.IsReady drv.volume_size drv.read_only drv.block_read
            (buffer_sector s.file s.volume.context)
            s.file.buffer.buffer
            s.volume.device
            d
  load-dirty s block_number offset ready dirty inside sized target =
      let (d, e, wrote) = store-ready s ready inside sized in
      let (bytes, read, _) =
        drv.read_inside d (load_sector s block_number offset) wrote.ready
          (rw wrote.same_size target) in
      (d, bytes, load_through s d block_number offset bytes dirty e read, read, wrote)
