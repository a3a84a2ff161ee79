-- ===== src/Ext2/Layout/SuperblockStruct.antt =====
-- `struct superblock` of src/embext.h: 264 bytes.
use embext.Base.{ℕ, List, [], ◌∷◌, get_or}
use embext.Bytes.{pack, unpack}

-- `struct superblock`.
pub record Superblock : Type 0 where
  pub s_inodes_count : ℕ
  pub s_blocks_count : ℕ
  pub s_r_blocks_count : ℕ
  pub s_free_blocks_count : ℕ
  pub s_free_inodes_count : ℕ
  pub s_first_data_block : ℕ
  pub s_log_block_size : ℕ
  pub s_log_frag_size : ℕ
  pub s_blocks_per_group : ℕ
  pub s_frags_per_group : ℕ
  pub s_inodes_per_group : ℕ
  pub s_mtime : ℕ
  pub s_wtime : ℕ
  pub s_mnt_count : ℕ
  pub s_max_mnt_count : ℕ
  pub s_magic : ℕ
  pub s_state : ℕ
  pub s_errors : ℕ
  pub s_minor_rev_level : ℕ
  pub s_lastcheck : ℕ
  pub s_checkinterval : ℕ
  pub s_creator_os : ℕ
  pub s_rev_level : ℕ
  pub s_def_resuid : ℕ
  pub s_def_resgid : ℕ
  pub s_first_ino : ℕ
  pub s_inode_size : ℕ
  pub s_block_group_nr : ℕ
  pub s_feature_compat : ℕ
  pub s_feature_incompat : ℕ
  pub s_feature_ro_compat : ℕ
  pub s_uuid : ℕ
  pub s_volume_name : ℕ
  pub s_last_mounted : ℕ
  pub s_algo_bitmap : ℕ
  pub s_prealloc_blocks : ℕ
  pub s_prealloc_dir_blocks : ℕ
  pub alignment1 : ℕ
  pub s_journal_uuid : ℕ
  pub s_journal_inum : ℕ
  pub s_journal_dev : ℕ
  pub s_last_orphan : ℕ
  pub s_hash_seed : ℕ
  pub s_def_hash_version : ℕ
  pub alignment2 : ℕ
  pub s_default_mount_options : ℕ
  pub s_first_meta_bg : ℕ

abbrev pub superblock_widths : List ℕ
superblock_widths =
    4 ∷ 4 ∷ 4 ∷ 4 ∷ 4 ∷ 4 ∷ 4 ∷ 4 ∷ 4 ∷ 4 ∷ 4 ∷ 4 ∷ 4 ∷ 2 ∷ 2 ∷ 2 ∷ 2 ∷ 2 ∷ 2 ∷ 4 ∷ 4 ∷ 4 ∷ 4 ∷ 2
    ∷ 2 ∷ 4 ∷ 2 ∷ 2 ∷ 4 ∷ 4 ∷ 4 ∷ 16 ∷ 16 ∷ 64 ∷ 4 ∷ 1 ∷ 1 ∷ 2 ∷ 16 ∷ 4 ∷ 4 ∷ 4 ∷ 16 ∷ 1 ∷ 3 ∷ 4 ∷ 4
    ∷ []

-- The fields in the order of the struct.
abbrev pub superblock_values : Superblock → List ℕ
superblock_values r =
    r.s_inodes_count ∷ r.s_blocks_count ∷ r.s_r_blocks_count ∷ r.s_free_blocks_count
    ∷ r.s_free_inodes_count ∷ r.s_first_data_block ∷ r.s_log_block_size ∷ r.s_log_frag_size
    ∷ r.s_blocks_per_group ∷ r.s_frags_per_group ∷ r.s_inodes_per_group ∷ r.s_mtime ∷ r.s_wtime
    ∷ r.s_mnt_count ∷ r.s_max_mnt_count ∷ r.s_magic ∷ r.s_state ∷ r.s_errors ∷ r.s_minor_rev_level
    ∷ r.s_lastcheck ∷ r.s_checkinterval ∷ r.s_creator_os ∷ r.s_rev_level ∷ r.s_def_resuid
    ∷ r.s_def_resgid ∷ r.s_first_ino ∷ r.s_inode_size ∷ r.s_block_group_nr ∷ r.s_feature_compat
    ∷ r.s_feature_incompat ∷ r.s_feature_ro_compat ∷ r.s_uuid ∷ r.s_volume_name ∷ r.s_last_mounted
    ∷ r.s_algo_bitmap ∷ r.s_prealloc_blocks ∷ r.s_prealloc_dir_blocks ∷ r.alignment1
    ∷ r.s_journal_uuid ∷ r.s_journal_inum ∷ r.s_journal_dev ∷ r.s_last_orphan ∷ r.s_hash_seed
    ∷ r.s_def_hash_version ∷ r.alignment2 ∷ r.s_default_mount_options ∷ r.s_first_meta_bg ∷ []

abbrev pub superblock_of : List ℕ → Superblock
superblock_of vs = record {
  s_inodes_count = get_or vs 0 0;
  s_blocks_count = get_or vs 1 0;
  s_r_blocks_count = get_or vs 2 0;
  s_free_blocks_count = get_or vs 3 0;
  s_free_inodes_count = get_or vs 4 0;
  s_first_data_block = get_or vs 5 0;
  s_log_block_size = get_or vs 6 0;
  s_log_frag_size = get_or vs 7 0;
  s_blocks_per_group = get_or vs 8 0;
  s_frags_per_group = get_or vs 9 0;
  s_inodes_per_group = get_or vs 10 0;
  s_mtime = get_or vs 11 0;
  s_wtime = get_or vs 12 0;
  s_mnt_count = get_or vs 13 0;
  s_max_mnt_count = get_or vs 14 0;
  s_magic = get_or vs 15 0;
  s_state = get_or vs 16 0;
  s_errors = get_or vs 17 0;
  s_minor_rev_level = get_or vs 18 0;
  s_lastcheck = get_or vs 19 0;
  s_checkinterval = get_or vs 20 0;
  s_creator_os = get_or vs 21 0;
  s_rev_level = get_or vs 22 0;
  s_def_resuid = get_or vs 23 0;
  s_def_resgid = get_or vs 24 0;
  s_first_ino = get_or vs 25 0;
  s_inode_size = get_or vs 26 0;
  s_block_group_nr = get_or vs 27 0;
  s_feature_compat = get_or vs 28 0;
  s_feature_incompat = get_or vs 29 0;
  s_feature_ro_compat = get_or vs 30 0;
  s_uuid = get_or vs 31 0;
  s_volume_name = get_or vs 32 0;
  s_last_mounted = get_or vs 33 0;
  s_algo_bitmap = get_or vs 34 0;
  s_prealloc_blocks = get_or vs 35 0;
  s_prealloc_dir_blocks = get_or vs 36 0;
  alignment1 = get_or vs 37 0;
  s_journal_uuid = get_or vs 38 0;
  s_journal_inum = get_or vs 39 0;
  s_journal_dev = get_or vs 40 0;
  s_last_orphan = get_or vs 41 0;
  s_hash_seed = get_or vs 42 0;
  s_def_hash_version = get_or vs 43 0;
  alignment2 = get_or vs 44 0;
  s_default_mount_options = get_or vs 45 0;
  s_first_meta_bg = get_or vs 46 0;
}

-- The bytes that a `memcpy` of the struct moves.
unfoldable pub superblock_bytes : Superblock → List ℕ
superblock_bytes r = pack superblock_widths (superblock_values r)

unfoldable pub read_superblock : List ℕ → Superblock
read_superblock bytes = superblock_of (unpack superblock_widths bytes)
