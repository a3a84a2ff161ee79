-- ===== src/Ext2/Transfer/Written.antt =====
-- A write below the first twelve blocks of a file, on a volume of 1024-byte blocks.
use embext.Base.{ℕ, zero, suc, ◌∙◌, ◌+◌, ◌-◌, ◌%◌, ◌^◌, ◌<◌, ◌≤◌, ◌≡◌, ◌≢◌, arith, none, some}
use embext.Base.{List, length, leb, if◌then◌else◌, take, slice, splice, overlay}
use embext.Base.{
  min, length-take, Bool-cases, inl, inr, leb→le, slice_inside, splice_inside, pos, bit_and,
}
use embext.Driver.{BlockDriver, ok}
use embext.Ext2.Monad.{◌>>=◌}
use embext.Ext2.State.{Fs, u32, ext2_block_size, embext_magic, ext2_flag_write, ext2_flag_append}
use embext.Ext2.Buffer.Loaded.{stored}
use embext.Ext2.Buffer.{ext2_store_buffer, ext2_write_buffer, ext2_buffer_space, set_buffer}
use embext.Ext2.BlockMap.{ext2_select_buffer}
use embext.Ext2.Seek.{file}
use embext.Ext2.Transfer.{fs_dirty, grow, write_amount, write_loop, ext2_write}
use embext.Ext2.Transfer.Selected.{
  IsAtDirect, under_cursor, selected, selected_dirty, block_size_1024,
}

module _ ⦃drv : BlockDriver⦄ where
  -- The state behind a write whose bytes make the sector in the buffer `sector`.
  abbrev pub rewritten : Fs drv.Device → List ℕ → ℕ → Fs drv.Device
  rewritten s sector amount = record s {
    file = grow amount (set_buffer (λ b. record b { buffer = sector; dirty = 1 }) s.file);
  }

  -- The time of the last change.
  abbrev pub stamped : Fs drv.Device → Fs drv.Device
  stamped s = record s {
    file = fs_dirty (record s.file { inode = record s.file.inode { i_mtime = u32 s.now } });
  }

  starts :
      (s : Fs drv.Device) (bytes : List ℕ) (count : ℕ)
      → s.file.magic ≡ embext_magic
      → bit_and s.file.flags ext2_flag_write ≢ 0
      → bit_and s.file.flags ext2_flag_append ≡ 0
      → ext2_write file bytes count s ≡ write_loop (suc count) bytes count 0 s
  unfolding ext2_write ◌>>=◌
  starts s bytes count opened writes no_append =
      let e : count + 1 ≡ suc count = omega arith in ground (arith, opened, writes, no_append, e)

  abbrev wanted : Fs drv.Device → ℕ → ℕ
  wanted s count = write_amount s.volume.context s.file count 0

  round :
      (fuel count amount : ℕ) (bytes source sector : List ℕ) (s s1 : Fs drv.Device)
      → 0 < count
      → ext2_select_buffer s ≡ some (ok tt, s1)
      → wanted s1 count ≡ amount
      → slice bytes 0 amount ≡ some source
      → splice s1.file.buffer.buffer
          (s1.file.cursor % ext2_block_size s1.volume.context % 512)
          source
        ≡ some sector
      → write_loop (suc fuel) bytes count 0 s
        ≡ write_loop fuel bytes count (u32 (0 + amount)) (rewritten s1 sector amount)
  unfolding write_loop ext2_write_buffer ◌>>=◌
  round fuel count amount bytes source sector s s1 some_left select all got put =
      ground (arith, select, all, got, put)

  leaves :
      (fuel count amount : ℕ) (bytes source : List ℕ) (s s1 : Fs drv.Device)
      → 0 < count
      → ext2_select_buffer s ≡ some (ok tt, s1)
      → wanted s1 count ≡ amount
      → slice bytes 0 amount ≡ some source
      → splice s1.file.buffer.buffer
          (s1.file.cursor % ext2_block_size s1.volume.context % 512)
          source
        ≡ none
      → write_loop (suc fuel) bytes count 0 s ≡ none
  unfolding write_loop ext2_write_buffer ◌>>=◌
  leaves fuel count amount bytes source s s1 some_left select all got put =
      ground (arith, select, all, got, put)

  finished :
      (fuel count i : ℕ) (bytes : List ℕ) (s : Fs drv.Device)
      → i ≡ count
      → 0 < count
      → count < 2 ^ 31
      → write_loop (suc fuel) bytes count i s ≡ some (pos count, stamped s)
  unfolding write_loop ◌>>=◌
  finished fuel count i bytes s e some_left small = ground (arith, e, some_left)

  -- What the round of a write of `count` bytes puts into the buffer, with `room` bytes of room.
  cut_to :
      (bytes : List ℕ) (count amount : ℕ)
      → amount ≤ count
      → count ≤ length bytes
      → slice bytes 0 amount ≡ some (take amount bytes)
  cut_to bytes count amount small whole = slice_inside bytes 0 amount (omega arith)

  under :
      (s : Fs drv.Device)
      → s.volume.context.superblock.s_log_block_size ≡ 0
      → s.file.cursor % ext2_block_size s.volume.context % 512 ≡ s.file.cursor % 512
  under s small = rw (block_size_1024 s small) (omega arith)

  -- The amount of the first round.
  amount_of :
      (s : Fs drv.Device) (count : ℕ)
      → s.volume.context.superblock.s_log_block_size ≡ 0
      → wanted s count ≡ min count (1023 - s.file.cursor % 512)
  unfolding ext2_buffer_space
  amount_of s count small = rw (block_size_1024 s small) (omega arith)

  put_inside :
      (sector source : List ℕ) (offset : ℕ)
      → length sector ≡ 512
      → offset + length source ≤ 512
      → splice sector offset source ≡ some (overlay sector offset source)
  put_inside sector source offset sized fits = splice_inside sector offset source (omega arith)

  put_past :
      (sector source : List ℕ) (offset : ℕ)
      → length sector ≡ 512
      → 512 < offset + length source
      → splice sector offset source ≡ none
  unfolding splice
  put_past sector source offset sized past = ground (arith, sized)

  -- A write inside the sector that is selected from `s` as it would be from `t`.
  within :
      (s t : Fs drv.Device) (b k : ℕ) (bytes sector : List ℕ)
      → ext2_select_buffer s ≡ some (ok tt, under_cursor t b sector)
      → IsAtDirect t b sector
      → suc k ≤ length bytes
      → t.file.cursor % 512 + suc k ≤ 512
      → write_loop (suc (suc k)) bytes (suc k) 0 s
        ≡ some (
          pos (suc k),
          stamped (
              rewritten
                (under_cursor t b sector)
                (overlay sector (t.file.cursor % 512) (take (suc k) bytes))
                (suc k)),
        )
  within s t b k bytes sector select is whole fits =
      let s1 = under_cursor t b sector in
      let sized : length (take (suc k) bytes) ≡ suc k =
        ground (arith, length-take (suc k) bytes, whole) in
      let put =
        put_inside sector (take (suc k) bytes) (t.file.cursor % 512) is.sized (omega arith) in
      round (suc k) (suc k) (suc k) bytes (take (suc k) bytes) _ s s1 (omega arith) select
        (amount_of s1 (suc k) is.small_blocks ∙ omega arith)
        (cut_to bytes (suc k) (suc k) (omega arith) whole) (rw (under s1 is.small_blocks) put)
      ∙ finished k (suc k) (u32 (0 + suc k)) bytes _ (omega arith) (omega arith) (omega arith)

  past :
      (s : Fs drv.Device) (b k : ℕ) (bytes sector : List ℕ)
      → IsAtDirect s b sector
      → suc k ≤ length bytes
      → 512 < s.file.cursor % 512 + suc k
      → write_loop (suc (suc k)) bytes (suc k) 0 s ≡ none
  past s b k bytes sector is whole over =
      let s1 = under_cursor s b sector in
      let amount = min (suc k) (1023 - s.file.cursor % 512) in
      let sized : length (take amount bytes) ≡ amount =
        ground (arith, length-take amount bytes, whole) in
      let put = put_past sector (take amount bytes) (s.file.cursor % 512) is.sized (omega arith) in
      leaves (suc k) (suc k) amount bytes (take amount bytes) s s1 (omega arith)
        (selected s b sector is) (amount_of s1 (suc k) is.small_blocks)
        (cut_to bytes (suc k) amount (omega arith) whole) (rw (under s1 is.small_blocks) put)

  pub ext2_write-sector :
      (s : Fs drv.Device) (b count : ℕ) (bytes sector : List ℕ)
      → IsAtDirect s b sector
      → bit_and s.file.flags ext2_flag_write ≢ 0
      → bit_and s.file.flags ext2_flag_append ≡ 0
      → 0 < count
      → count ≤ length bytes
      → ext2_write file bytes count s ≡ (
          if leb (s.file.cursor % 512 + count) 512
          then some (
            pos count,
            stamped (
                rewritten
                  (under_cursor s b sector)
                  (overlay sector (s.file.cursor % 512) (take count bytes))
                  count),
          )
          else none)
  ext2_write-sector s b zero bytes sector is writes no_append some_left whole = absurd (omega arith)
  ext2_write-sector s b (suc k) bytes sector is writes no_append some_left whole =
      starts s bytes (suc k) is.opened writes no_append
      ∙ elim (Bool-cases (leb (s.file.cursor % 512 + suc k) 512)) [
        | inl fits ↦ rw fits (
            within s s b k bytes sector (selected s b sector is) is whole
              (leb→le (s.file.cursor % 512 + suc k) 512 fits))
        | inr over ↦ rw over (past s b k bytes sector is whole (ground (arith, over)))
      ]

  -- The same through a modified buffer, inside one sector.
  pub ext2_write-dirty :
      (s : Fs drv.Device) (d : drv.Device) (b count : ℕ) (bytes sector : List ℕ)
      → s.file.buffer.dirty ≢ 0
      → ext2_store_buffer s ≡ some (ok tt, stored s d)
      → IsAtDirect (stored s d) b sector
      → bit_and s.file.flags ext2_flag_write ≢ 0
      → bit_and s.file.flags ext2_flag_append ≡ 0
      → 0 < count
      → count ≤ length bytes
      → s.file.cursor % 512 + count ≤ 512
      → ext2_write file bytes count s
        ≡ some (
          pos count,
          stamped (
              rewritten
                (under_cursor (stored s d) b sector)
                (overlay sector (s.file.cursor % 512) (take count bytes))
                count),
        )
  ext2_write-dirty s d b zero bytes sector dirty store is writes no_append some_left whole fits =
      absurd (omega arith)
  ext2_write-dirty s d b (suc k) bytes sector dirty store is writes no_append some_left whole fits =
      starts s bytes (suc k) is.opened writes no_append
      ∙ within s (stored s d) b k bytes sector (selected_dirty s d b sector dirty store is) is whole
          fits
