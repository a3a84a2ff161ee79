-- ===== src/Ext2/Reading/Quiet.antt =====
-- What no call on a file open for reading does: write to the device.
use embext.Base.{ℕ, ◌≡◌, ◌∙◌, arith, Bool, true, ◌||◌, ◌==◌}
use embext.Base.{bit_and, bit_or, slice, ◌%◌, if◌then◌else◌, eq→==}
use embext.Driver.{BlockDriver}
use embext.Ext2.Monad.{M, set_file, set_errno, on_volume}
use embext.Ext2.Monad.Preserves.{Preserves, Preserves-modify, Preserves-bind, Preserves-get}
use embext.Ext2.Monad.Preserves.{Preserves-if, Preserves-pure, Preserves-defined, preserves_rules}
use embext.Ext2.State.{Fs, FileEnt, ext2_flag_write}
use embext.Ext2.Sector.{read_sysbuf}
use embext.Ext2.Buffer.{flush_dirty, fill_buffer, ext2_load_buffer, ext2_read_buffer}
use embext.Ext2.BlockMap.{read_pointer, inode_pointer, block_of_index, ext2_block_from_offset}
use embext.Ext2.BlockMap.{ext2_select_buffer}

-- The flags of a file that is not open for writing: that for reading or none, with or without the
-- mark that the inode has changed, which the time of an access sets, and that for appending.
abbrev pub is_reader : ℕ → Bool
is_reader flags =
    (flags == 0) || (flags == 32) || (flags == 2) || (flags == 34) || (flags == 10) || (flags == 42)

-- The device is `d`, the buffer of the file is clean, and it is open for reading.
pub record IsReading {Device : Type 0} (d : Device) (s : Fs Device) : Type 0 where
  pub same_device : s.volume.device ≡ d
  pub clean : s.file.buffer.dirty ≡ 0
  pub reader : is_reader s.file.flags ≡ true

reader_not_writer : (flags : ℕ) → is_reader flags ≡ true → bit_and flags ext2_flag_write ≡ 0
reader_not_writer flags e = ground (arith, e)

pub marked_reader : (flags : ℕ) → is_reader flags ≡ true → is_reader (bit_or flags 32) ≡ true
marked_reader flags e = ground (arith, e)

pub opened_reader :
    (flags : ℕ) → is_reader flags ≡ true → is_reader (bit_or (bit_or flags 2) 0) ≡ true
opened_reader flags e = ground (arith, e)

module _ {Device : Type 0} {d : Device} where
  pub Reading-set_file :
      (f : FileEnt → FileEnt)
      → ((fe : FileEnt) → (f fe).buffer.dirty ≡ fe.buffer.dirty)
      → ((fe : FileEnt) → is_reader fe.flags ≡ true → is_reader (f fe).flags ≡ true)
      → Preserves (IsReading d) (set_file f)
  Reading-set_file f clean reader = Preserves-modify _ λ s is. record {
    same_device = is.same_device;
    clean = clean s.file ∙ is.clean;
    reader = reader s.file is.reader;
  }

  pub Reading-set_errno : (e : ℕ) → Preserves (IsReading d) (set_errno e)
  Reading-set_errno e =
      Preserves-modify _
        λ s is. record { same_device = is.same_device; clean = is.clean; reader = is.reader }

module _ ⦃drv : BlockDriver⦄ {d : drv.Device} where
  pub Reading-read_sysbuf : (sector : ℕ) → Preserves (IsReading d) (on_volume (read_sysbuf sector))
  unfolding on_volume read_sysbuf
  Reading-read_sysbuf sector = record { at = λ s a s' is h. ground (arith, is, h) }

  pub flush_dirty-Reading : Preserves (IsReading d) flush_dirty
  unfolding flush_dirty
  flush_dirty-Reading = record { at = λ s a s' is h. ground (arith, is, h) }

  pub fill_buffer-Reading : Preserves (IsReading d) fill_buffer
  unfolding fill_buffer
  fill_buffer-Reading = record { at = λ s a s' is h. ground (arith, is, h) }

  pub ruleset quiet_rules = (
    preserves_rules, Reading-set_file, Reading-set_errno, Reading-read_sysbuf, flush_dirty-Reading,
    fill_buffer-Reading,
  )

  load_buffer-Reading :
      (block_number offset : ℕ) → Preserves (IsReading d) (ext2_load_buffer block_number offset)
  unfolding ext2_load_buffer
  load_buffer-Reading block_number offset = search quiet_rules depth 14

  pub read_buffer-Reading :
      (offset count : ℕ) → Preserves (IsReading d) (ext2_read_buffer offset count)
  unfolding ext2_read_buffer
  read_buffer-Reading offset count = record {
    at = λ s a s' is h.
        (Preserves-defined {I = IsReading d} (slice s.file.buffer.buffer (offset % 512) count)).at s
          a s' is h;
  }

  read_pointer-Reading : (block index : ℕ) → Preserves (IsReading d) (read_pointer block index)
  unfolding read_pointer
  read_pointer-Reading block index =
      search (preserves_rules, load_buffer-Reading, read_buffer-Reading) depth 14

  inode_pointer-Reading : (i : ℕ) → Preserves (IsReading d) (inode_pointer i)
  inode_pointer-Reading i = search quiet_rules depth 14

  block_of_index-Reading :
      (n block_index : ℕ) → Preserves (IsReading d) (block_of_index n block_index)
  unfolding block_of_index
  block_of_index-Reading n block_index =
      search (preserves_rules, read_pointer-Reading, inode_pointer-Reading) depth 20

  from_offset-Reading : (offset : ℕ) → Preserves (IsReading d) (ext2_block_from_offset offset)
  unfolding ext2_block_from_offset
  from_offset-Reading offset = search (preserves_rules, block_of_index-Reading) depth 14

  -- A test of the flag for writing fails.
  not_writing :
      {A : Type 0} (s : Fs drv.Device) (m n : M (Fs drv.Device) A)
      → IsReading d s
      → Preserves (IsReading d) m
      → Preserves (IsReading d) (if bit_and s.file.flags ext2_flag_write == 0 then m else n)
  not_writing s m n is pm =
      let quiet : (bit_and s.file.flags ext2_flag_write == 0) ≡ true =
        eq→== _ 0 (reader_not_writer s.file.flags is.reader) in
      rw quiet pm

  -- A hole is not filled, since the file is not open for writing.
  pub select_buffer-Reading : Preserves (IsReading d) ext2_select_buffer
  unfolding ext2_select_buffer
  select_buffer-Reading = Preserves-get _ λ s is.
      search (not_writing, preserves_rules, from_offset-Reading, load_buffer-Reading) depth 14
