-- ===== src/Ext2/Seek.antt =====
-- The calls on an open file that move no data: `ext2_lseek`, `ext2_fstat` and `ext2_isatty` of
-- src/embext.c.
pub mod Target
use embext.Base.{ℕ, ◌+◌, ◌-◌, ◌^◌, Bool, false, ◌==◌, if◌then◌else◌}
use embext.Base.{ℤ, pos, ◌+ℤ◌, ltb_ℤ, pos_part, to_int, to_uint32, minus_one}
use embext.Driver.{Reply, ok, failed}
use embext.Ext2.Monad.{M, pure, ◌>>=◌, ◌>>◌, get, set_file, set_errno}
use embext.Ext2.State.{FileEnt, Fs}
use embext.Ext2.State.{ext2_block_size, embext_magic, u32, ebadf, einval, enotty, eoverflow}

-- The `void *vfe` of a caller: null, or the file of the state.
pub data Pointer : Type 0 where
  null file : Pointer

abbrev pub int64_max : ℕ
int64_max = 2 ^ 63 - 1

-- `SEEK_SET`, `SEEK_CUR` and `SEEK_END` of <stdio.h>.
abbrev pub seek_set : ℕ
seek_set = 0

abbrev pub seek_cur : ℕ
seek_cur = 1

abbrev pub seek_end : ℕ
seek_end = 2

-- What `ext2_fstat` fills in.
pub record Stat : Type 0 where
  pub st_dev : ℕ
  pub st_ino : ℕ
  pub st_mode : ℕ
  pub st_nlink : ℕ
  pub st_uid : ℕ
  pub st_gid : ℕ
  pub st_rdev : ℕ
  pub st_size : ℕ
  pub st_atime : ℕ
  pub st_mtime : ℕ
  pub st_ctime : ℕ
  pub st_blksize : ℕ
  pub st_blocks : ℕ

-- The two checks at the start of each call.
abbrev pub is_open : Pointer → FileEnt → Bool
is_open null fe = false
is_open file fe = fe.magic == embext_magic

module _ {Device : Type 0} where
  -- `*rerrno = e; return -1;`
  abbrev pub error : ℕ → M (Fs Device) ℤ
  error e = do set_errno e; pure minus_one

  -- The last statements: the cursor, and its value as an `int`.
  abbrev pub seek_to : ℕ → M (Fs Device) ℤ
  seek_to cursor = do set_file (λ fe. record fe { cursor = cursor }); pure (to_int cursor)

  -- `i_size + offset` is a sum of a `uint32_t` and an `int`, and so is taken modulo 2^32.
  unfoldable pub ext2_lseek : Pointer → ℤ → ℕ → M (Fs Device) ℤ
  ext2_lseek vfe offset whence = do
    s ← get
    let fe = s.file
    if is_open vfe fe
        then if whence == seek_set
          then if ltb_ℤ offset (pos 0) then error einval else seek_to (pos_part offset)
          else if whence == seek_cur
          then if ltb_ℤ (pos (int64_max - fe.cursor)) offset
            then error eoverflow
            else if ltb_ℤ (offset +ℤ pos fe.cursor) (pos 0)
            then error einval
            else seek_to (pos_part (offset +ℤ pos fe.cursor))
          else if whence == seek_end
          then if ltb_ℤ (pos (int64_max - fe.inode.i_size)) offset
            then error eoverflow
            else if ltb_ℤ (offset +ℤ pos fe.inode.i_size) (pos 0)
            then error einval
            else seek_to (u32 (fe.inode.i_size + to_uint32 offset))
          else error einval
        else error ebadf

  unfoldable pub ext2_fstat : Pointer → M (Fs Device) (Reply Stat)
  ext2_fstat vfe = do
    s ← get
    let fe = s.file
    if is_open vfe fe
        then pure (
            ok (record {
              st_dev = 0;
              st_ino = fe.inode_number;
              st_mode = fe.inode.i_mode;
              st_nlink = fe.inode.i_links_count;
              st_uid = fe.inode.i_uid;
              st_gid = fe.inode.i_gid;
              st_rdev = 0;
              st_size = fe.inode.i_size;
              st_atime = fe.inode.i_atime;
              st_mtime = fe.inode.i_mtime;
              st_ctime = fe.inode.i_ctime;
              st_blksize = ext2_block_size s.volume.context;
              st_blocks = fe.inode.i_blocks;
            }))
        else (do set_errno ebadf; pure failed)

  unfoldable pub ext2_isatty : Pointer → M (Fs Device) ℤ
  ext2_isatty vfe = do
    s ← get
    if is_open vfe s.file then set_errno enotty else set_errno ebadf
    pure (pos 0)
