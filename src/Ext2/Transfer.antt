-- ===== src/Ext2/Transfer.antt =====
-- `ext2_read`, `ext2_write`, `ext2_update_atime`, `ext2_update_mtime` of src/embext.c. Each loop
-- has fuel for one round a byte.
pub mod Selected
pub mod Direct
pub mod Written
pub mod Since
pub mod Edited
use embext.Base.{
  ℕ, zero, suc, ◌+◌, ◌-◌, ◌%◌, Bool, false, not, List, [], ◌++◌, min, bit_and, bit_or,
}
use embext.Base.{ltb, leb, ◌==◌, if◌then◌else◌, slice, ℤ, pos, to_int, minus_one, negsuc}
use embext.Driver.{BlockDriver}
use embext.Ext2.Monad.{M, pure, ◌>>=◌, ◌>>◌, get, defined, set_file, set_errno, on_reply, undefined}
use embext.Ext2.State.{Context, FileEnt, Fs}
use embext.Ext2.State.{ext2_block_size, ext2_flag_write, ext2_flag_append, ext2_flag_fs_dirty}
use embext.Ext2.State.{u32, ebadf, eio}
use embext.Ext2.Buffer.{ext2_read_buffer, ext2_write_buffer, ext2_buffer_space}
use embext.Ext2.BlockMap.{ext2_select_buffer}
use embext.Ext2.Seek.{Pointer, is_open, ext2_lseek, seek_end}

-- What `ext2_read` returns, and what it has stored behind `buffer`.
pub record ReadResult : Type 0 where
  pub returned : ℤ
  pub bytes : List ℕ

abbrev pub fs_dirty : FileEnt → FileEnt
fs_dirty fe = record fe { flags = bit_or fe.flags ext2_flag_fs_dirty }

module _ {Device : Type 0} where
  unfoldable pub ext2_update_atime : M (Fs Device) (Unit {0})
  ext2_update_atime = do
    s ← get
    set_file (λ fe. fs_dirty (record fe { inode = record fe.inode { i_atime = u32 s.now } }))

  unfoldable pub ext2_update_mtime : M (Fs Device) (Unit {0})
  ext2_update_mtime = do
    s ← get
    set_file (λ fe. fs_dirty (record fe { inode = record fe.inode { i_mtime = u32 s.now } }))

-- `amount_to_copy` of a read: the rest wanted, the room in the buffer, the rest of the file.
abbrev pub read_amount : Context → FileEnt → ℕ → ℕ → ℕ
read_amount context fe count i =
    min (min (count - i) (ext2_buffer_space context fe)) (fe.inode.i_size - fe.cursor)

abbrev pub write_amount : Context → FileEnt → ℕ → ℕ → ℕ
write_amount context fe count i = min (count - i) (ext2_buffer_space context fe)

-- The cursor and the size behind the bytes written.
abbrev pub grow : ℕ → FileEnt → FileEnt
grow amount fe =
    if ltb fe.inode.i_size (fe.cursor + amount)
    then fs_dirty (record fe {
      cursor = fe.cursor + amount;
      inode = record fe.inode { i_size = u32 (fe.cursor + amount) };
    })
    else record fe { cursor = fe.cursor + amount }

abbrev pub is_minus_one : ℤ → Bool
is_minus_one (pos n) = false
is_minus_one (negsuc n) = n == 0

-- `*rerrno = EBADF; return -1;`
abbrev pub failure : {Device : Type 0} → M (Fs Device) ℤ
failure = do set_errno ebadf; pure minus_one

module _ ⦃drv : BlockDriver⦄ where
  -- Behind the loop of a read.
  unfoldable pub read_done : ℕ → List ℕ → M (Fs drv.Device) ReadResult
  unfolding ext2_update_atime
  read_done i bt = do
    if ltb 0 i then ext2_update_atime else pure tt
    pure (record { returned = to_int i; bytes = bt })

  -- `*rerrno = EIO; return -1;`
  abbrev pub read_failed : List ℕ → M (Fs drv.Device) ReadResult
  read_failed bt = do set_errno eio; pure (record { returned = minus_one; bytes = bt })

  -- One round per call; `failed` is the return of -1. The bytes `bt[0..i)` are carried along, also
  -- past a failure.
  unfoldable pub read_loop : ℕ → ℕ → ℕ → List ℕ → M (Fs drv.Device) ReadResult
  read_loop zero count i bt = undefined
  read_loop (suc fuel) count i bt = do
    s ← get
    if not (ltb i count)
        then read_done i bt
        else if leb s.file.inode.i_size s.file.cursor
        then read_done i bt
        else do
          selected ← ext2_select_buffer
          on_reply selected (read_failed bt) λ _. do
            s ← get
            let context = s.volume.context
            let amount = read_amount context s.file count i
            bytes ← ext2_read_buffer (s.file.cursor % ext2_block_size context) amount
            set_file (λ fe. record fe { cursor = fe.cursor + amount })
            read_loop fuel count (u32 (i + amount)) (bt ++ bytes)

  unfoldable pub ext2_read : Pointer → ℕ → M (Fs drv.Device) ReadResult
  ext2_read vfe count = do
    s ← get
    if is_open vfe s.file
        then read_loop (count + 1) count 0 []
        else (do set_errno ebadf; pure (record { returned = minus_one; bytes = [] }))

  -- One round of a write, from byte `i` of `bt`.
  unfoldable pub write_loop : ℕ → List ℕ → ℕ → ℕ → M (Fs drv.Device) ℤ
  unfolding ext2_update_mtime
  write_loop zero bt count i = undefined
  write_loop (suc fuel) bt count i =
      if not (ltb i count)
      then (do if ltb 0 i then ext2_update_mtime else pure tt; pure (to_int i))
      else (do
        selected ← ext2_select_buffer
        on_reply selected (do set_errno eio; pure minus_one)
            λ _. do
              s ← get
              let context = s.volume.context
              let amount = write_amount context s.file count i
              source ← defined (slice bt i amount)
              ext2_write_buffer source (s.file.cursor % ext2_block_size context)
              set_file (grow amount)
              write_loop fuel bt count (u32 (i + amount)))

  unfoldable pub ext2_write : Pointer → List ℕ → ℕ → M (Fs drv.Device) ℤ
  ext2_write vfe bt count = do
    s ← get
    if not (is_open vfe s.file)
        then failure
        else if bit_and s.file.flags ext2_flag_write == 0
        then failure
        else if bit_and s.file.flags ext2_flag_append == 0
        then write_loop (count + 1) bt count 0
        else do
          end ← ext2_lseek vfe (pos 0) seek_end
          if is_minus_one end then pure minus_one else write_loop (count + 1) bt count 0
