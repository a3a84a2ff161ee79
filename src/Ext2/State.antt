-- ===== src/Ext2/State.antt =====
-- The state that the functions of src/embext.c share. Constants are those of src/embext.h.
use embext.Base.{ℕ, ◌*◌, ◌%◌, ◌^◌, List}
use embext.Ext2.Layout.{Superblock, Inode}

abbrev pub ext2_super_magic : ℕ
ext2_super_magic = 0xef53

abbrev pub embext_magic : ℕ
embext_magic = 0xebedded2

abbrev pub ext2_valid_fs : ℕ
ext2_valid_fs = 1

abbrev pub ext2_error_fs : ℕ
ext2_error_fs = 2

abbrev pub ext2_root_ino : ℕ
ext2_root_ino = 2

abbrev pub ext2_flag_read : ℕ
ext2_flag_read = 2

abbrev pub ext2_flag_write : ℕ
ext2_flag_write = 4

abbrev pub ext2_flag_append : ℕ
ext2_flag_append = 8

abbrev pub ext2_flag_fs_dirty : ℕ
ext2_flag_fs_dirty = 32

abbrev pub ext2_s_ifdir : ℕ
ext2_s_ifdir = 0x4000

abbrev pub ext2_s_ifreg : ℕ
ext2_s_ifreg = 0x8000

-- The numbers of <errno.h>.
abbrev pub enoent : ℕ
enoent = 2

abbrev pub eio : ℕ
eio = 5

abbrev pub ebadf : ℕ
ebadf = 9

abbrev pub enomem : ℕ
enomem = 12

abbrev pub eexist : ℕ
eexist = 17

abbrev pub eisdir : ℕ
eisdir = 21

abbrev pub einval : ℕ
einval = 22

abbrev pub enotty : ℕ
enotty = 25

abbrev pub enospc : ℕ
enospc = 28

abbrev pub erofs : ℕ
erofs = 30

abbrev pub eoverflow : ℕ
eoverflow = 75

-- `uint16_t`, `uint32_t` and `uint64_t`.
abbrev pub u16 : ℕ → ℕ
u16 n = n % 2 ^ 16

abbrev pub u32 : ℕ → ℕ
u32 n = n % 2 ^ 32

abbrev pub u64 : ℕ → ℕ
u64 n = n % 2 ^ 64

-- `struct ext2context`; `superblock_blocks` is the array of `num_superblocks` entries.
pub record Context : Type 0 where
  pub part_start : ℕ
  pub superblock : Superblock
  pub sparse : ℕ
  pub sysbuf : List ℕ
  pub superblock_block : ℕ
  pub read_only : ℕ
  pub num_blockgroups : ℕ
  pub num_superblocks : ℕ
  pub superblock_blocks : List ℕ

-- `struct buffer_object`
pub record BufferObject : Type 0 where
  pub buffer : List ℕ
  pub lba_block : ℕ
  pub dirty : ℕ

-- `struct file_ent`, but for the pointer to its context. `cursor` is never negative.
pub record FileEnt : Type 0 where
  pub magic : ℕ
  pub flags : ℕ
  pub cursor : ℕ
  pub inode_number : ℕ
  pub buffer : BufferObject
  pub inode : Inode
  pub rerrno : ℕ

-- A device and the context of a volume mounted on it.
pub record Volume (Device : Type 0) : Type 0 where
  pub device : Device
  pub context : Context

-- A volume, an open file of it, the `int` that a caller's `rerrno` points to, and what `time(NULL)`
-- returns during the call.
pub record Fs (Device : Type 0) : Type 0 where
  pub volume : Volume Device
  pub file : FileEnt
  pub errno : ℕ
  pub now : ℕ

-- `ext2_block_size`. The shift of the `int` 1024 is defined up to `s_log_block_size` 20.
unfoldable pub ext2_block_size : Context → ℕ
ext2_block_size context = 1024 * 2 ^ context.superblock.s_log_block_size
