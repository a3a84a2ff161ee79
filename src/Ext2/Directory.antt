-- ===== src/Ext2/Directory.antt =====
-- `ext2_readdir` of src/embext.c, `struct dirent` of src/dirent.h and `struct ext2_dir_header` of
-- src/embext_directory.h.
pub mod Content
pub mod Entries
pub mod Readdir
use embext.Base.{ℕ, ◌+◌, ◌^◌, Bool, true, false, List, [], ◌∷◌, ◌++◌, overlay, set, get_or}
use embext.Base.{ltb, ◌==◌, ◌&&◌, if◌then◌else◌, ℤ, pos, ltb_ℤ, sub_ℕ}
use embext.Bytes.{le_decode, le_encode, pack, unpack}
use embext.Driver.{BlockDriver}
use embext.Ext2.Monad.{M, pure, ◌>>=◌}
use embext.Ext2.State.{Fs}
use embext.Ext2.Seek.{Pointer, ext2_lseek, seek_cur}
use embext.Ext2.Transfer.{ext2_read}

-- `MAXNAMLEN`
abbrev pub maxnamlen : ℕ
maxnamlen = 255

-- `struct dirent`: the 32 bits of its `int`, and the 256 bytes of the name.
pub record Dirent : Type 0 where
  pub d_ino : ℕ
  pub d_name : List ℕ

-- What `ext2_readdir` returns: null or `&de`, and the static variable `de` itself, which keeps its
-- bytes from call to call.
pub record Entry : Type 0 where
  pub is_null : Bool
  pub de : Dirent

-- A C string: the bytes before the first 0.
abbrev pub c_string : List ℕ → List ℕ
c_string [] = []
c_string (b ∷ bs) = if b == 0 then [] else b ∷ c_string bs

-- `strcmp(a, b) == 0` of two C strings.
abbrev pub same_bytes : List ℕ → List ℕ → Bool
same_bytes [] [] = true
same_bytes [] (b ∷ bs) = false
same_bytes (a ∷ xs) [] = false
same_bytes (a ∷ xs) (b ∷ bs) = (a == b) && same_bytes xs bs

-- The bytes that a read has stored over an unsigned variable of `n` bytes.
unfoldable pub stored_over : ℕ → ℕ → List ℕ → ℕ
stored_over n old bytes = le_decode (overlay (le_encode n old) 0 bytes)

module _ ⦃drv : BlockDriver⦄ where
  abbrev pub no_entry : Dirent → M (Fs drv.Device) Entry
  no_entry de = pure (record { is_null = true; de = de })

  -- The name, and the step to the next entry; results of the calls are ignored.
  unfoldable pub read_name : Pointer → Dirent → ℕ → ℕ → M (Fs drv.Device) Entry
  read_name vfe de rec_len name_len = do
    r ← ext2_read vfe name_len
    let name = set (overlay de.d_name 0 r.bytes) name_len 0
    _ ← ext2_lseek vfe (sub_ℕ rec_len (8 + name_len)) seek_cur
    pure (record { is_null = false; de = record de { d_name = name } })

  -- The header of an entry, field by field. `d_ino > 0` is a comparison of an `int`.
  unfoldable pub ext2_readdir : Pointer → Dirent → M (Fs drv.Device) Entry
  ext2_readdir vfe de = do
    ino ← ext2_read vfe 4
    let de = record de { d_ino = stored_over 4 de.d_ino ino.bytes }
    if ltb_ℤ ino.returned (pos 4) then no_entry de else do
      len ← ext2_read vfe 2
      if ltb_ℤ len.returned (pos 2) then no_entry de else do
        name ← ext2_read vfe 1
        if ltb_ℤ name.returned (pos 1) then no_entry de else do
          kind ← ext2_read vfe 1
          if ltb_ℤ kind.returned (pos 1)
              then no_entry de
              else if (ltb 0 de.d_ino) && (ltb de.d_ino (2 ^ 31))
              then read_name vfe de (le_decode len.bytes) (le_decode name.bytes)
              else no_entry de

-- `struct ext2_dir_header`
pub record DirHeader : Type 0 where
  pub inode : ℕ
  pub rec_len : ℕ
  pub name_len : ℕ
  pub file_type : ℕ

abbrev pub dir_header_widths : List ℕ
dir_header_widths = 4 ∷ 2 ∷ 1 ∷ 1 ∷ []

abbrev pub dir_header_of : List ℕ → DirHeader
dir_header_of vs = record {
  inode = get_or vs 0 0;
  rec_len = get_or vs 1 0;
  name_len = get_or vs 2 0;
  file_type = get_or vs 3 0;
}

unfoldable pub dir_header_bytes : DirHeader → List ℕ
dir_header_bytes h = pack dir_header_widths (h.inode ∷ h.rec_len ∷ h.name_len ∷ h.file_type ∷ [])

unfoldable pub read_dir_header : List ℕ → DirHeader
read_dir_header bytes = dir_header_of (unpack dir_header_widths bytes)
