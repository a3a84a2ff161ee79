-- ===== src/Ext2/Append/Calls.antt =====
-- The calls of `ext2_append_to_directory` that put an entry behind the last one, in their order.
use embext.Base.{ℕ, ◌+◌, ◌-◌, ◌%◌, ◌^◌, ◌<◌, ◌≤◌, ◌≡◌, arith, some, refl}
use embext.Base.{List, length, pos}
use embext.Driver.{BlockDriver}
use embext.Ext2.Monad.{◌>>=◌}
use embext.Ext2.State.{Fs, u16, embext_magic}
use embext.Ext2.Seek.{file}
use embext.Ext2.Seek.Target.{moved}
use embext.Ext2.Directory.{DirHeader, dir_header_bytes}
use embext.Ext2.Transfer.{ext2_write}
use embext.Ext2.Transfer.Since.{lseek_to}
use embext.Ext2.Append.{LastEntry, entry_length, write_entry, append_in_block}
use embext.Ext2.Append.Sector.{}

-- The header of the last entry when the new one follows it.
abbrev pub cut_header : LastEntry → DirHeader
cut_header last = record last.header { rec_len = entry_length last.header.name_len }

-- The header of the new entry, which takes the rest of the block.
abbrev pub new_header : ℕ → List ℕ → ℕ → LastEntry → DirHeader
new_header inode filename block_size last = record {
  inode = inode;
  rec_len = block_size - (last.offset + entry_length last.header.name_len);
  name_len = length filename;
  file_type = 0;
}

module _ ⦃drv : BlockDriver⦄ where
  -- The calls in their order.
  pub calls :
      (s s1 s2 s3 : Fs drv.Device) (inode : ℕ) (filename : List ℕ) (last_block block_size : ℕ)
      (last : LastEntry)
      → s.file.magic ≡ embext_magic
      → s1.file.magic ≡ embext_magic
      → last.offset + entry_length last.header.name_len ≤ block_size
      → block_size < 2 ^ 16
      → length filename < 256
      → ext2_write file (dir_header_bytes (cut_header last)) 8 (moved (last.offset + last_block) s)
        ≡ some (pos 8, s1)
      → ext2_write file
          (dir_header_bytes (new_header inode filename block_size last))
          8
          (moved (last.offset + entry_length last.header.name_len + last_block) s1)
        ≡ some (pos 8, s2)
      → ext2_write file filename (length filename) s2 ≡ some (pos (length filename), s3)
      → append_in_block inode filename last_block block_size last s ≡ some (tt, s3)
  unfolding append_in_block write_entry ◌>>=◌
  calls s s1 s2 s3 inode filename last_block block_size last opened opened1 inside small short w1 w2
        w3 =
      let least = entry_length last.header.name_len in
      let rec_len : u16 (block_size + 2 ^ 32 - (last.offset + least))
          ≡ block_size - (last.offset + least) =
        omega arith in
      let name_len : length filename % 256 ≡ length filename = omega arith in
      rw
        (
          lseek_to s (last.offset + last_block) opened,
          w1,
          lseek_to s1 (last.offset + least + last_block) opened1,
          rec_len,
          name_len,
          w2,
          w3,
        )
        refl
