-- ===== src/Ext2/OpenFile.antt =====
-- `ext2_open` of src/embext.c; what follows when the file does not exist is a parameter. `free`
-- leaves the file of the state as it is.
use embext.Base.{ℕ, Bool, not, List, [], replicate, bit_and, bit_or}
use embext.Base.{◌==◌, ◌&&◌, if◌then◌else◌, to_uint32}
use embext.Driver.{BlockDriver}
use embext.Ext2.Layout.{Inode}
use embext.Ext2.Layout.InodeStruct.{inode_of}
use embext.Ext2.Monad.{M, pure, ◌>>=◌, ◌>>◌, get, set_file, set_errno, on_reply}
use embext.Ext2.State.{FileEnt, Fs, embext_magic, ext2_flag_read, ext2_flag_write}
use embext.Ext2.State.{ext2_flag_append, ext2_s_ifdir, enoent, enomem, eexist, eisdir, erofs}
use embext.Ext2.Seek.{Pointer, null, file}
use embext.Ext2.Open.{ext2_open_inode}
use embext.Ext2.Truncate.{ext2_truncate_file}
use embext.Ext2.Directory.{Dirent}
use embext.Ext2.Lookup.{ext2_lookup_path}

-- The flags of <fcntl.h>, as Linux numbers them.
abbrev pub o_wronly : ℕ
o_wronly = 1

abbrev pub o_rdwr : ℕ
o_rdwr = 2

abbrev pub o_creat : ℕ
o_creat = 64

abbrev pub o_excl : ℕ
o_excl = 128

abbrev pub o_trunc : ℕ
o_trunc = 512

abbrev pub o_append : ℕ
o_append = 1024

abbrev pub is_set : ℕ → ℕ → Bool
is_set flags flag = not (bit_and flags flag == 0)

-- What the system answers during a call: whether `malloc` of a file succeeds, and `getuid()` and
-- `getgid()`.
pub record System : Type 0 where
  pub memory : Bool
  pub uid : ℕ
  pub gid : ℕ

-- The pointer returned, and the static variable of `ext2_readdir`.
pub record Opened : Type 0 where
  pub fe : Pointer
  pub de : Dirent

-- Behind the `memset` of a file to 0.
abbrev pub no_inode_read : Inode
no_inode_read = record (inode_of []) { i_block = replicate 15 0 }

abbrev pub fresh_file : FileEnt
fresh_file = record {
  magic = embext_magic;
  flags = 0;
  cursor = 0;
  inode_number = 0;
  buffer = record { buffer = replicate 512 0; lba_block = 0; dirty = 0 };
  inode = no_inode_read;
  rerrno = 0;
}

-- The bits of `fe->flags` that a call's flags ask for.
abbrev pub access_flags : ℕ → ℕ
access_flags flags =
    if is_set flags o_rdwr
    then bit_or ext2_flag_read ext2_flag_write
    else if is_set flags o_wronly
    then ext2_flag_write
    else ext2_flag_read

abbrev pub append_flags : ℕ → ℕ
append_flags flags = if is_set flags o_append then ext2_flag_append else 0

abbrev pub with_flags : ℕ → FileEnt → FileEnt
with_flags flags fe = record fe {
  flags = bit_or (bit_or fe.flags (access_flags flags)) (append_flags flags);
}

module _ {Device : Type 0} where
  -- `free(fe); return NULL;`
  abbrev pub no_file : Dirent → M (Fs Device) Opened
  no_file de = pure (record { fe = null; de = de })

  -- `free(fe); (*rerrno) = e; return NULL;`
  abbrev pub no_file_as : ℕ → Dirent → M (Fs Device) Opened
  no_file_as e de = do set_errno e; no_file de

  -- `fe->magic = 0; free(fe); (*rerrno) = e; return NULL;`
  abbrev pub abandoned : ℕ → Dirent → M (Fs Device) Opened
  abandoned e de = do set_file (λ fe. record fe { magic = 0 }); no_file_as e de

module _ ⦃drv : BlockDriver⦄ where
  -- The branch of a file that exists.
  unfoldable pub open_existing : ℕ → Bool → Dirent → M (Fs drv.Device) Opened
  open_existing flags internal_call de = do
    s ← get
    if is_set flags o_creat && is_set flags o_excl
        then no_file_as eexist de
        else if bit_and flags (bit_or o_wronly o_rdwr) == 0
        then pure (record { fe = file; de = de })
        else if not (s.volume.context.read_only == 0)
        then no_file_as erofs de
        else if is_set s.file.inode.i_mode ext2_s_ifdir && not internal_call
        then no_file_as eisdir de
        else do
          if is_set flags o_trunc
              then (do _ ← ext2_truncate_file; set_file (λ fe. record fe { cursor = 0 }))
              else pure tt
          pure (record { fe = file; de = de })

  -- The branch of a file that does not exist; `create` is what follows with `O_CREAT`.
  unfoldable pub open_missing :
      (Dirent → M (Fs drv.Device) Opened) → ℕ → Dirent → M (Fs drv.Device) Opened
  open_missing create flags de = if is_set flags o_creat then create de else abandoned enoent de

  unfoldable pub open_with :
      System
      → (Dirent → M (Fs drv.Device) Opened)
      → List ℕ
      → ℕ
      → ℕ
      → Dirent
      → M (Fs drv.Device) Opened
  open_with system create name flags mode de =
      if not system.memory then no_file_as enomem de else do
        set_file (λ fe. fresh_file)
        looked ← ext2_lookup_path name de
        i ← ext2_open_inode (to_uint32 looked.result)
        set_file (with_flags flags)
        s ← get
        on_reply i
            (if s.errno == enoent then open_missing create flags looked.de else no_file looked.de)
            λ _. open_existing flags (is_set mode 512) looked.de
