-- ===== src/Ext2/Layout/InodeStruct.antt =====
-- `struct inode` of src/embext.h: 128 bytes.
use embext.Base.{ℕ, List, [], ◌∷◌, ◌++◌, get_or, take, drop}
use embext.Bytes.{pack, unpack}

-- `struct inode`; `i_block` has 15 entries.
pub record Inode : Type 0 where
  pub i_mode : ℕ
  pub i_uid : ℕ
  pub i_size : ℕ
  pub i_atime : ℕ
  pub i_ctime : ℕ
  pub i_mtime : ℕ
  pub i_dtime : ℕ
  pub i_gid : ℕ
  pub i_links_count : ℕ
  pub i_blocks : ℕ
  pub i_flags : ℕ
  pub i_osd1 : ℕ
  pub i_block : List ℕ
  pub i_generation : ℕ
  pub i_file_acl : ℕ
  pub i_dir_acl : ℕ
  pub i_faddr : ℕ
  pub i_osd2 : ℕ

abbrev pub inode_widths : List ℕ
inode_widths =
    2 ∷ 2 ∷ 4 ∷ 4 ∷ 4 ∷ 4 ∷ 4 ∷ 2 ∷ 2 ∷ 4 ∷ 4 ∷ 4 ∷ 4 ∷ 4 ∷ 4 ∷ 4 ∷ 4 ∷ 4 ∷ 4 ∷ 4 ∷ 4 ∷ 4 ∷ 4 ∷ 4
    ∷ 4 ∷ 4 ∷ 4 ∷ 4 ∷ 4 ∷ 4 ∷ 4 ∷ 12 ∷ []

-- The fields in the order of the struct.
abbrev pub inode_values : Inode → List ℕ
inode_values r =
    r.i_mode
    ∷ r.i_uid
    ∷ r.i_size
    ∷ r.i_atime
    ∷ r.i_ctime
    ∷ r.i_mtime
    ∷ r.i_dtime
    ∷ r.i_gid
    ∷ r.i_links_count
    ∷ r.i_blocks
    ∷ r.i_flags
    ∷ r.i_osd1
    ∷ (r.i_block ++ (r.i_generation ∷ r.i_file_acl ∷ r.i_dir_acl ∷ r.i_faddr ∷ r.i_osd2 ∷ []))

abbrev pub inode_of : List ℕ → Inode
inode_of vs = record {
  i_mode = get_or vs 0 0;
  i_uid = get_or vs 1 0;
  i_size = get_or vs 2 0;
  i_atime = get_or vs 3 0;
  i_ctime = get_or vs 4 0;
  i_mtime = get_or vs 5 0;
  i_dtime = get_or vs 6 0;
  i_gid = get_or vs 7 0;
  i_links_count = get_or vs 8 0;
  i_blocks = get_or vs 9 0;
  i_flags = get_or vs 10 0;
  i_osd1 = get_or vs 11 0;
  i_block = take 15 (drop 12 vs);
  i_generation = get_or (drop 15 (drop 12 vs)) 0 0;
  i_file_acl = get_or (drop 15 (drop 12 vs)) 1 0;
  i_dir_acl = get_or (drop 15 (drop 12 vs)) 2 0;
  i_faddr = get_or (drop 15 (drop 12 vs)) 3 0;
  i_osd2 = get_or (drop 15 (drop 12 vs)) 4 0;
}

-- The bytes that a `memcpy` of the struct moves.
unfoldable pub inode_bytes : Inode → List ℕ
inode_bytes r = pack inode_widths (inode_values r)

unfoldable pub read_inode : List ℕ → Inode
read_inode bytes = inode_of (unpack inode_widths bytes)
