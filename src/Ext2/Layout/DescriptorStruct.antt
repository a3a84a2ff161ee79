-- ===== src/Ext2/Layout/DescriptorStruct.antt =====
-- `struct block_group_descriptor` of src/embext.h: 32 bytes.
use embext.Base.{ℕ, List, [], ◌∷◌, get_or}
use embext.Bytes.{pack, unpack}

-- `struct block_group_descriptor`.
pub record BlockGroupDescriptor : Type 0 where
  pub bg_block_bitmap : ℕ
  pub bg_inode_bitmap : ℕ
  pub bg_inode_table : ℕ
  pub bg_free_blocks_count : ℕ
  pub bg_free_inodes_count : ℕ
  pub bg_used_dirs_count : ℕ
  pub bg_pad : ℕ
  pub bg_reserved : ℕ

abbrev pub descriptor_widths : List ℕ
descriptor_widths = 4 ∷ 4 ∷ 4 ∷ 2 ∷ 2 ∷ 2 ∷ 2 ∷ 12 ∷ []

-- The fields in the order of the struct.
abbrev pub descriptor_values : BlockGroupDescriptor → List ℕ
descriptor_values r =
    r.bg_block_bitmap ∷ r.bg_inode_bitmap ∷ r.bg_inode_table ∷ r.bg_free_blocks_count
    ∷ r.bg_free_inodes_count ∷ r.bg_used_dirs_count ∷ r.bg_pad ∷ r.bg_reserved ∷ []

abbrev pub descriptor_of : List ℕ → BlockGroupDescriptor
descriptor_of vs = record {
  bg_block_bitmap = get_or vs 0 0;
  bg_inode_bitmap = get_or vs 1 0;
  bg_inode_table = get_or vs 2 0;
  bg_free_blocks_count = get_or vs 3 0;
  bg_free_inodes_count = get_or vs 4 0;
  bg_used_dirs_count = get_or vs 5 0;
  bg_pad = get_or vs 6 0;
  bg_reserved = get_or vs 7 0;
}

-- The bytes that a `memcpy` of the struct moves.
unfoldable pub descriptor_bytes : BlockGroupDescriptor → List ℕ
descriptor_bytes r = pack descriptor_widths (descriptor_values r)

unfoldable pub read_descriptor : List ℕ → BlockGroupDescriptor
read_descriptor bytes = descriptor_of (unpack descriptor_widths bytes)
