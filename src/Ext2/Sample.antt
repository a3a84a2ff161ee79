-- ===== src/Ext2/Sample.antt =====
-- A small volume for the tests: eight sectors of an image held in memory, one group, 1024-byte
-- blocks.
pub mod Sound
pub mod Tree
use embext.Base.{◌++◌, [], ◌∷◌, replicate}
use embext.BlockPc.{Pc}
use embext.Ext2.Group.Copy.{image}
use embext.BlockPc.Laws.{block_pc}
use embext.Ext2.Layout.{Superblock, Inode, BlockGroupDescriptor}
use embext.Ext2.Layout.SuperblockStruct.{superblock_of}
use embext.Ext2.Layout.DescriptorStruct.{descriptor_of}
use embext.Ext2.Layout.InodeStruct.{inode_of}
use embext.Ext2.State.{Context, BufferObject, FileEnt, Volume, Fs, embext_magic}

abbrev pub eight_sectors : Pc
eight_sectors = record { blocks = replicate 4096 7; block_fs_size = 4096; block_ro = 0 }

abbrev pub small_superblock : Superblock
small_superblock = record (superblock_of []) {
  s_inodes_count = 16;
  s_blocks_count = 4;
  s_blocks_per_group = 8192;
  s_inodes_per_group = 16;
  s_inode_size = 128;
  s_magic = 0xef53;
}

abbrev pub small_context : Context
small_context = record {
  part_start = 0;
  superblock = small_superblock;
  sparse = 0;
  sysbuf = replicate 512 0;
  superblock_block = 1;
  read_only = 0;
  num_blockgroups = 1;
  num_superblocks = 1;
  superblock_blocks = 1 ∷ [];
}

abbrev pub small_volume : Volume Pc
small_volume = record { device = eight_sectors; context = small_context }

-- A file of 600 bytes in block 3, with the cursor at byte 5.
abbrev pub small_inode : Inode
small_inode = record (inode_of []) { i_mode = 0x8000; i_size = 600; i_block = 3 ∷ replicate 14 0 }

abbrev pub small_buffer : BufferObject
small_buffer = record { buffer = replicate 512 9; lba_block = 6; dirty = 0 }

abbrev pub small_file : FileEnt
small_file = record {
  magic = embext_magic;
  flags = 2;
  cursor = 5;
  inode_number = 12;
  buffer = small_buffer;
  inode = small_inode;
  rerrno = 0;
}

abbrev pub small_fs : Fs Pc
small_fs = record { volume = small_volume; file = small_file; errno = 0; now = 1000 }

-- The same with a modified buffer.
abbrev pub modified_fs : Fs Pc
modified_fs = record small_fs {
  file = record small_file { buffer = record small_buffer { dirty = 1 } };
}

-- The same with its file closed.
abbrev pub closed_fs : Fs Pc
closed_fs = record small_fs { file = record small_file { magic = 0 } }

abbrev pub small_descriptor : BlockGroupDescriptor
small_descriptor = descriptor_of (3 ∷ 4 ∷ 5 ∷ 100 ∷ 10 ∷ 2 ∷ [])

-- A device with a table of inodes in block 3, and a file with inode 5 that has changed.
abbrev pub table_device : Pc
table_device = record {
  blocks = replicate 2056 0 ++ (3 ∷ replicate 2039 0);
  block_fs_size = 4096;
  block_ro = 0;
}

abbrev pub table_volume : Volume Pc
table_volume = record small_volume { device = table_device }

abbrev pub table_fs : Fs Pc
table_fs = record small_fs {
  volume = table_volume;
  file = record small_file { inode_number = 5; flags = 36 };
}

-- The same for a file of 600 bytes open for writing.
abbrev pub writing_fs : Fs Pc
writing_fs = record small_fs { file = record small_file { flags = 4 } }

-- A device with the superblock in its sector 2, and the context that mounting it builds.
abbrev pub mount_device : Pc
mount_device = record {
  blocks = replicate 1024 0 ++ (image small_superblock ++ replicate 2560 0);
  block_fs_size = 4096;
  block_ro = 0;
}

abbrev pub mount_context : Context
mount_context = record small_context { sysbuf = image small_superblock }

-- A device whose bitmap has the bit of block 3 set, and the file of that block.
abbrev pub used_device : Pc
used_device = record { blocks = 8 ∷ replicate 4095 0; block_fs_size = 4096; block_ro = 0 }

abbrev pub used_volume : Volume Pc
used_volume = record small_volume { device = used_device }

abbrev pub used_fs : Fs Pc
used_fs = record small_fs { volume = used_volume }
