-- ===== src/Ext2/Transfer/Direct.antt =====
-- A read below the first twelve blocks of a file, on a volume of 1024-byte blocks.
use embext.Base.{ℕ, zero, suc, ◌∙◌, ◌+◌, ◌%◌, ◌^◌, ◌<◌, ◌≤◌, ◌≡◌, refl, arith, none, some}
use embext.Base.{List, [], leb, if◌then◌else◌, take, drop, slice}
use embext.Base.{slice_inside, pos}
use embext.Driver.{BlockDriver, ok}
use embext.Base.{Option, true, false, Bool-cases, inl, inr, leb→le}
use embext.Ext2.Monad.{◌>>=◌}
use embext.Ext2.State.{Fs, u32, ext2_block_size, embext_magic}
use embext.Ext2.Buffer.{ext2_read_buffer, ext2_buffer_space}
use embext.Ext2.BlockMap.{ext2_select_buffer}
use embext.Ext2.Seek.{file}
use embext.Ext2.Transfer.{ReadResult, fs_dirty, read_amount, read_done, read_loop, ext2_read}
use embext.Ext2.Transfer.Selected.{IsAtDirect, under_cursor, selected, block_size_1024}

module _ ⦃drv : BlockDriver⦄ where
  -- The state behind a read of `count` bytes: the cursor, and the time of the access.
  abbrev pub accessed : Fs drv.Device → ℕ → Fs drv.Device
  accessed s count = record s {
    file = fs_dirty (record s.file {
      cursor = s.file.cursor + count;
      inode = record s.file.inode { i_atime = u32 s.now };
    });
  }

  abbrev wanted : Fs drv.Device → ℕ → ℕ
  wanted s count = read_amount s.volume.context s.file count 0

  -- The bytes that a round copies, `none` if they leave the buffer.
  abbrev chunk : Fs drv.Device → ℕ → Option (List ℕ)
  chunk s count =
      slice s.file.buffer.buffer (s.file.cursor % ext2_block_size s.volume.context % 512)
        (wanted s count)

  advanced : Fs drv.Device → ℕ → Fs drv.Device
  advanced s amount = record s { file = record s.file { cursor = s.file.cursor + amount } }

  leaves :
      (fuel count : ℕ) (s s1 : Fs drv.Device)
      → 0 < count
      → s.file.cursor < s.file.inode.i_size
      → ext2_select_buffer s ≡ some (ok tt, s1)
      → chunk s1 count ≡ none
      → read_loop (suc fuel) count 0 [] s ≡ none
  unfolding read_loop ext2_read_buffer ◌>>=◌
  leaves fuel count s s1 some_left below select cut = ground (arith, select, cut)

  round :
      (fuel count : ℕ) (s s1 : Fs drv.Device) (bytes : List ℕ)
      → 0 < count
      → s.file.cursor < s.file.inode.i_size
      → ext2_select_buffer s ≡ some (ok tt, s1)
      → chunk s1 count ≡ some bytes
      → read_loop (suc fuel) count 0 [] s
        ≡ read_loop fuel count (u32 (0 + wanted s1 count)) bytes (advanced s1 (wanted s1 count))
  unfolding read_loop ext2_read_buffer ◌>>=◌ advanced
  round fuel count s s1 bytes some_left below select cut = ground (arith, select, cut)

  finished :
      (fuel count : ℕ) (bytes : List ℕ) (s : Fs drv.Device)
      → 0 < count
      → count < 2 ^ 31
      → read_loop (suc fuel) count count bytes (advanced s count)
        ≡ some (record { returned = pos count; bytes = bytes }, accessed s count)
  unfolding read_loop read_done ◌>>=◌ advanced
  finished fuel count bytes s some_left small = ground (arith, some_left)

  starts :
      (s : Fs drv.Device) (count : ℕ)
      → s.file.magic ≡ embext_magic
      → ext2_read file count s ≡ read_loop (suc count) count 0 [] s
  unfolding ext2_read ◌>>=◌
  starts s count opened = let e : count + 1 ≡ suc count = omega arith in ground (arith, opened, e)

  -- Where the copy goes on past the sector, it leaves the buffer.
  cut_past :
      (s : Fs drv.Device) (b count : ℕ) (bytes : List ℕ)
      → IsAtDirect s b bytes
      → leb (s.file.cursor % 512 + count) 512 ≡ false
      → s.file.cursor + count ≤ s.file.inode.i_size
      → chunk (under_cursor s b bytes) count ≡ none
  unfolding slice ext2_buffer_space
  cut_past s b count bytes is past ends =
      ground (arith, block_size_1024 s is.small_blocks, is.sized)

  -- Where it does not, all the bytes wanted are copied at once.
  wanted_all :
      (s : Fs drv.Device) (b count : ℕ) (bytes : List ℕ)
      → IsAtDirect s b bytes
      → s.file.cursor % 512 + count ≤ 512
      → s.file.cursor + count ≤ s.file.inode.i_size
      → wanted (under_cursor s b bytes) count ≡ count
  unfolding ext2_buffer_space
  wanted_all s b count bytes is inside ends = ground (arith, block_size_1024 s is.small_blocks)

  copied_as :
      (s : Fs drv.Device) (count amount offset : ℕ) (bytes : List ℕ) {chunk_bytes : List ℕ}
      → s.file.cursor % ext2_block_size s.volume.context % 512 ≡ offset
      → wanted s count ≡ amount
      → s.file.buffer.buffer ≡ bytes
      → slice bytes offset amount ≡ some chunk_bytes
      → chunk s count ≡ some chunk_bytes
  copied_as s count amount offset bytes at all holds cut = cc (at, all, holds, cut)

  went :
      (fuel count : ℕ) (bytes : List ℕ) (result : Option (ReadResult × Fs drv.Device))
      (i amount : ℕ) (s : Fs drv.Device)
      → i ≡ count
      → amount ≡ count
      → read_loop fuel count count bytes (advanced s count) ≡ result
      → read_loop fuel count i bytes (advanced s amount) ≡ result
  went fuel count bytes result i amount s e f rest = cc (e, f, rest)

  within :
      (s : Fs drv.Device) (b k : ℕ) (bytes : List ℕ)
      → IsAtDirect s b bytes
      → leb (s.file.cursor % 512 + suc k) 512 ≡ true
      → s.file.cursor + suc k ≤ s.file.inode.i_size
      → read_loop (suc (suc k)) (suc k) 0 [] s
        ≡ some (
          record {
            returned = pos (suc k);
            bytes = take (suc k) (drop (s.file.cursor % 512) bytes);
          },
          accessed (under_cursor s b bytes) (suc k),
        )
  within s b k bytes is inside ends =
      let s1 = under_cursor s b bytes in
      let le = leb→le (s.file.cursor % 512 + suc k) 512 inside in
      let all = wanted_all s b (suc k) bytes is le ends in
      let size = block_size_1024 s is.small_blocks in
      let cut = slice_inside bytes (s.file.cursor % 512) (suc k) (omega (arith, le, is.sized)) in
      let same : s.file.cursor % 1024 % 512 ≡ s.file.cursor % 512 = omega arith in
      let copied : chunk s1 (suc k) ≡ some (take (suc k) (drop (s.file.cursor % 512) bytes)) =
        copied_as s1 (suc k) (suc k) (s.file.cursor % 512) bytes (rw size same) all refl cut in
      let turn =
        round (suc k) (suc k) s s1 _ (omega arith) (omega (arith, ends)) (selected s b bytes is)
          copied in
      let w : u32 (0 + wanted s1 (suc k)) ≡ suc k = omega (arith, all, le) in
      turn
      ∙ went (suc k) (suc k) _ _ (u32 (0 + wanted s1 (suc k))) (wanted s1 (suc k)) s1 w all
          (finished k (suc k) _ s1 (omega arith) (omega (arith, le)))

  -- On a volume of 1024-byte blocks, with the cursor of an open file in one of its first twelve
  -- blocks, which is allocated, and a clean buffer (`IsAtDirect`), a read of at least one byte
  -- that ends within the file: when the bytes wanted lie in the sector under the cursor, the
  -- read returns just these bytes of the device, moves the cursor behind them and sets the time
  -- of access; when they go on past the sector, the copy leaves the 512 bytes of the buffer,
  -- and the behaviour is undefined.
  pub ext2_read-sector :
      (s : Fs drv.Device) (b count : ℕ) (bytes : List ℕ)
      → IsAtDirect s b bytes
      → 0 < count
      → s.file.cursor + count ≤ s.file.inode.i_size
      → ext2_read file count s ≡ (
          if leb (s.file.cursor % 512 + count) 512
          then some (
            record { returned = pos count; bytes = take count (drop (s.file.cursor % 512) bytes) },
            accessed (under_cursor s b bytes) count,
          )
          else none)
  ext2_read-sector s b zero bytes is some_left ends = absurd (omega arith)
  ext2_read-sector s b (suc k) bytes is some_left ends =
      starts s (suc k) is.opened ∙ elim (Bool-cases (leb (s.file.cursor % 512 + suc k) 512)) [
        | inl inside ↦ rw inside (within s b k bytes is inside ends)
        | inr past ↦ rw past (
            leaves (suc k) (suc k) s (under_cursor s b bytes) some_left (omega (arith, ends))
              (selected s b bytes is) (cut_past s b (suc k) bytes is past ends))
      ]
