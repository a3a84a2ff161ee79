-- ===== src/Ext2/Layout/RoundTrip.antt =====
-- The structs of src/embext.h to their bytes and back.
use embext.Base.{◌≡◌, sym, [], ◌∷◌, length}
use embext.Base.{take-append_left, drop-append_left}
use embext.Bytes.{Fit}
use embext.Bytes.RoundTrip.{unpack-pack_self, length-pack}
use embext.Ext2.Layout.SuperblockStruct.{Superblock, superblock_widths, superblock_values}
use embext.Ext2.Layout.SuperblockStruct.{superblock_bytes, read_superblock}
use embext.Ext2.Layout.DescriptorStruct.{BlockGroupDescriptor, descriptor_widths, descriptor_values}
use embext.Ext2.Layout.DescriptorStruct.{descriptor_bytes, read_descriptor}
use embext.Ext2.Layout.InodeStruct.{
  Inode, inode_widths, inode_values, inode_of, inode_bytes, read_inode,
}

-- The fields fit their widths.
abbrev pub IsSuperblock : Superblock → Type 0
IsSuperblock r = Fit superblock_widths (superblock_values r)

abbrev pub IsDescriptor : BlockGroupDescriptor → Type 0
IsDescriptor r = Fit descriptor_widths (descriptor_values r)

pub record IsInode (r : Inode) : Type 0 where
  pub pointers : length r.i_block ≡ 15
  pub fit : Fit inode_widths (inode_values r)

pub read_superblock-superblock_bytes :
    (r : Superblock) → IsSuperblock r → read_superblock (superblock_bytes r) ≡ r
unfolding read_superblock superblock_bytes
read_superblock-superblock_bytes r is =
    rw (unpack-pack_self superblock_widths (superblock_values r) is)

pub length-superblock_bytes : (r : Superblock) → IsSuperblock r → length (superblock_bytes r) ≡ 264
unfolding superblock_bytes
length-superblock_bytes r is = length-pack superblock_widths (superblock_values r) is

pub read_descriptor-descriptor_bytes :
    (r : BlockGroupDescriptor) → IsDescriptor r → read_descriptor (descriptor_bytes r) ≡ r
unfolding read_descriptor descriptor_bytes
read_descriptor-descriptor_bytes r is =
    rw (unpack-pack_self descriptor_widths (descriptor_values r) is)

pub length-descriptor_bytes :
    (r : BlockGroupDescriptor) → IsDescriptor r → length (descriptor_bytes r) ≡ 32
unfolding descriptor_bytes
length-descriptor_bytes r is = length-pack descriptor_widths (descriptor_values r) is

inode_of-inode_values : (r : Inode) → length r.i_block ≡ 15 → inode_of (inode_values r) ≡ r
inode_of-inode_values r e =
    let tail = r.i_generation ∷ r.i_file_acl ∷ r.i_dir_acl ∷ r.i_faddr ∷ r.i_osd2 ∷ [] in
    rw (take-append_left 15 r.i_block tail (sym e), drop-append_left 15 r.i_block tail (sym e))

pub read_inode-inode_bytes : (r : Inode) → IsInode r → read_inode (inode_bytes r) ≡ r
unfolding read_inode inode_bytes
read_inode-inode_bytes r is =
    rw (unpack-pack_self inode_widths (inode_values r) is.fit) (inode_of-inode_values r is.pointers)

pub length-inode_bytes : (r : Inode) → IsInode r → length (inode_bytes r) ≡ 128
unfolding inode_bytes
length-inode_bytes r is = length-pack inode_widths (inode_values r) is.fit
