-- ===== src/Ext2/Append.antt =====
-- `ext2_append_to_directory` of src/embext_directory.c. The messages printed are left out; the sums
-- of `int`s do not overflow for a directory below 2^31 - 2^17 bytes.
pub mod Sector
pub mod Calls
pub mod Entry
use embext.Base.{ℕ, zero, suc, ◌+◌, ◌-◌, ◌*◌, ◌/◌, ◌%◌, ◌^◌, Bool, false, not}
use embext.Base.{Option, none, some, List, replicate, length, ltb, ◌==◌, if◌then◌else◌}
use embext.Base.{ℤ, pos, negsuc, pos_part, neg_part, minus_one}
use embext.Driver.{BlockDriver}
use embext.Ext2.Monad.{M, pure, ◌>>=◌, ◌>>◌, get, modify, set_errno, undefined}
use embext.Ext2.State.{Fs, ext2_block_size, u16, enoent, eio}
use embext.Ext2.Seek.{null, file, ext2_lseek, seek_set, seek_end}
use embext.Ext2.Transfer.{ext2_read, ext2_write}
use embext.Ext2.Close.{ext2_close}
use embext.Ext2.Directory.{Dirent, DirHeader, dir_header_bytes, read_dir_header}
use embext.Ext2.Lookup.{Outcome}
use embext.Ext2.OpenFile.{System, o_rdwr, open_with}

-- The least length of an entry whose name has `n` bytes.
unfoldable pub entry_length : ℕ → ℕ
entry_length n = (n / 4 + (if n % 4 == 0 then 0 else 1)) * 4 + 8

-- `x == n` for an `int` and a value that is not negative.
abbrev pub is_value : ℕ → ℤ → Bool
is_value n (pos m) = m == n
is_value n (negsuc m) = false

-- The last header of a block, and where it stands.
pub record LastEntry : Type 0 where
  pub offset : ℕ
  pub header : DirHeader

module _ {Device : Type 0} where
  -- A call that has a `struct file_ent` of its own: the caller's file is what it was.
  unfoldable pub with_own_file : {A : Type 0} → M (Fs Device) A → M (Fs Device) A
  with_own_file m = do s ← get; a ← m; modify (λ s'. record s' { file = s.file }); pure a

module _ ⦃drv : BlockDriver⦄ where
  -- `ext2_close(fe, &i)`: the error number goes elsewhere.
  unfoldable pub close_quietly : M (Fs drv.Device) (Unit {0})
  close_quietly = do s ← get; _ ← ext2_close file; set_errno s.errno

  -- The loop over the headers of the last block, from one at `this_offset` on. `rec_len` 0 repeats
  -- forever; else the offset grows, and stays below the size of the block.
  unfoldable pub find_last : ℕ → ℕ → ℕ → ℕ → DirHeader → M (Fs drv.Device) (Option LastEntry)
  find_last zero last_block block_size this_offset header = undefined
  find_last (suc fuel) last_block block_size this_offset header = do
    let this_offset = this_offset + header.rec_len
    place ← ext2_lseek file (pos (last_block + this_offset)) seek_set
    if not (is_value (last_block + this_offset) place) then pure none else do
      r ← ext2_read file 8
      if not (is_value 8 r.returned) then pure none else do
        let header = read_dir_header r.bytes
        if ltb (this_offset + header.rec_len) block_size
            then find_last fuel last_block block_size this_offset header
            else pure (some (record { offset = this_offset; header = header }))

  -- The header and the name of the new entry, at the cursor.
  unfoldable pub write_entry : ℕ → List ℕ → ℕ → M (Fs drv.Device) (Unit {0})
  write_entry inode filename rec_len = do
    let header : DirHeader = record {
      inode = inode;
      rec_len = rec_len;
      name_len = length filename % 256;
      file_type = 0;
    }
    _ ← ext2_write file (dir_header_bytes header) 8
    _ ← ext2_write file filename (length filename)
    pure tt

  -- There is room in the last block: the last entry is cut to its least length.
  unfoldable pub append_in_block : ℕ → List ℕ → ℕ → ℕ → LastEntry → M (Fs drv.Device) (Unit {0})
  append_in_block inode filename last_block block_size last = do
    let least = entry_length last.header.name_len
    _ ← ext2_lseek file (pos (last.offset + last_block)) seek_set
    _ ← ext2_write file (dir_header_bytes (record last.header { rec_len = least })) 8
    let this_offset = last.offset + least
    _ ← ext2_lseek file (pos (this_offset + last_block)) seek_set
    write_entry inode filename (u16 (block_size + 2 ^ 32 - this_offset))

  unfoldable pub write_zeros : ℕ → M (Fs drv.Device) (Unit {0})
  write_zeros zero = pure tt
  write_zeros (suc left) = do _ ← ext2_write file (replicate 128 0) 128; write_zeros left

  -- There is none: a block of zeros behind the last, with the one entry.
  unfoldable pub append_block : ℕ → List ℕ → ℕ → M (Fs drv.Device) (Unit {0})
  append_block inode filename block_size = do
    _ ← ext2_lseek file (pos 0) seek_end
    write_zeros (block_size / 128)
    _ ← ext2_lseek file (negsuc (block_size - 1)) seek_end
    write_entry inode filename (u16 block_size)

  -- The choice between the two.
  unfoldable pub place_entry : ℕ → List ℕ → ℕ → ℕ → LastEntry → M (Fs drv.Device) (Unit {0})
  place_entry inode filename last_block block_size last =
      if ltb (entry_length (length filename) + entry_length last.header.name_len)
        last.header.rec_len
      then append_in_block inode filename last_block block_size last
      else append_block inode filename block_size

  -- `*rerrno = e; ext2_close(fe, rerrno); return -1;`
  unfoldable pub give_up : ℕ → M (Fs drv.Device) ℤ
  give_up e = do set_errno e; _ ← ext2_close file; pure minus_one

  -- Behind the call of `ext2_open`.
  unfoldable pub append_to_open : ℕ → List ℕ → M (Fs drv.Device) ℤ
  append_to_open inode filename = do
    s ← get
    let block_size = ext2_block_size s.volume.context
    file_length ← ext2_lseek file (pos 0) seek_end
    if not ((pos_part file_length + neg_part file_length) % block_size == 0)
        then give_up enoent
        else if ltb (pos_part file_length) block_size
        then give_up eio
        else do
          let last_block = pos_part file_length - block_size
          let zeros : DirHeader = record { inode = 0; rec_len = 0; name_len = 0; file_type = 0 }
          last ← find_last (block_size + 1) last_block block_size 0 zeros
          elim last [
            | none ↦ do close_quietly; pure minus_one
            | some entry ↦ do
              place_entry inode filename last_block block_size entry
              _ ← ext2_close file
              pure (pos 0)
          ]

  -- The directory is opened without `O_CREAT`, so what would create it is never run.
  unfoldable pub ext2_append_to_directory :
      System → List ℕ → ℕ → List ℕ → Dirent → M (Fs drv.Device) Outcome
  ext2_append_to_directory system directory inode filename de = with_own_file (do
    opened ← open_with system (λ de. undefined) directory o_rdwr 1023 de
    elim opened.fe [
      | null ↦ pure (record { result = minus_one; de = opened.de })
      | file ↦ do
        result ← append_to_open inode filename
        pure (record { result = result; de = opened.de })
    ])
