-- ===== src/Ext2/Buffer.antt =====
-- The one-sector buffer of an open file: `ext2_store_buffer`, `ext2_load_buffer`,
-- `ext2_read_buffer`, `ext2_write_buffer` and `ext2_buffer_space` of src/embext.c.
pub mod Loaded
use embext.Base.{ℕ, ◌+◌, ◌-◌, ◌*◌, ◌/◌, ◌%◌, none, some, List, ◌==◌, if◌then◌else◌, slice, splice}
use embext.Driver.{Reply, ok, failed, BlockDriver, block_size}
use embext.Ext2.Monad.{M, pure, ◌>>=◌, ◌>>◌, get, defined, set_file, on_reply}
use embext.Ext2.State.{Context, BufferObject, FileEnt, Fs}
use embext.Ext2.State.{ext2_block_size, u32, eio}

abbrev pub set_buffer : (BufferObject → BufferObject) → FileEnt → FileEnt
set_buffer f fe = record fe { buffer = f fe.buffer }

-- The sector of the device that the buffer stands for.
abbrev pub buffer_sector : FileEnt → Context → ℕ
buffer_sector fe context = u32 (fe.buffer.lba_block + context.part_start)

-- `lba_block` for a byte offset into a filesystem block.
abbrev pub lba_of : Context → ℕ → ℕ → ℕ
lba_of context block_number offset = u32 (
    u32 (block_number * (ext2_block_size context / block_size)) + offset / 512 * (512 / block_size))

module _ ⦃drv : BlockDriver⦄ where
  unfoldable pub ext2_store_buffer : M (Fs drv.Device) (Reply (Unit {0}))
  ext2_store_buffer s =
      elim (drv.block_write (buffer_sector s.file s.volume.context) s.file.buffer.buffer
        s.volume.device) [
          | none ↦ none
          | some (ok d) ↦ some (
            ok tt,
            record s {
              volume = record s.volume { device = d };
              file = set_buffer (λ b. record b { dirty = 0 }) s.file;
            },
          )
          | some failed ↦ some (failed, record s { file = record s.file { rerrno = eio } })
        ]

  -- `block_read(lba_block + part_start, buffer)`, its result ignored.
  unfoldable pub fill_buffer : M (Fs drv.Device) (Unit {0})
  fill_buffer s = elim (drv.block_read (buffer_sector s.file s.volume.context) s.volume.device) [
    | none ↦ none
    | some (ok bytes) ↦
        some (tt, record s { file = set_buffer (λ b. record b { buffer = bytes }) s.file })
    | some failed ↦ some (tt, s)
  ]

  -- The write-back of a modified buffer, before another sector takes its place.
  unfoldable pub flush_dirty : M (Fs drv.Device) (Reply (Unit {0}))
  flush_dirty s = if s.file.buffer.dirty == 0 then some (ok tt, s) else ext2_store_buffer s

  unfoldable pub ext2_load_buffer : ℕ → ℕ → M (Fs drv.Device) (Reply (Unit {0}))
  ext2_load_buffer block_number offset = do
    flushed ← flush_dirty
    on_reply flushed (pure failed) λ _. do
      s ← get
      let lba = lba_of s.volume.context block_number offset
      set_file (set_buffer (λ b. record b { lba_block = lba }))
      fill_buffer
      pure (ok tt)

module _ {Device : Type 0} where
  -- A `memcpy` of `count` bytes out of the buffer: undefined if it leaves the sector.
  unfoldable pub ext2_read_buffer : ℕ → ℕ → M (Fs Device) (List ℕ)
  ext2_read_buffer offset count s = defined (slice s.file.buffer.buffer (offset % 512) count) s

  -- A `memcpy` into the buffer, which is then modified.
  unfoldable pub ext2_write_buffer : List ℕ → ℕ → M (Fs Device) (Unit {0})
  ext2_write_buffer source offset = do
    s ← get
    bytes ← defined (splice s.file.buffer.buffer (offset % 512) source)
    set_file (set_buffer (λ b. record b { buffer = bytes; dirty = 1 }))

-- The room that a transfer at the cursor is given; a block has at least 1024 bytes.
unfoldable pub ext2_buffer_space : Context → FileEnt → ℕ
ext2_buffer_space context fe = u32 (ext2_block_size context - 1 - fe.cursor % 512)
