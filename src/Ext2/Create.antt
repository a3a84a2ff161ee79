-- ===== src/Ext2/Create.antt =====
-- `ext2_open` of src/embext.c as a whole: the creation of a file. The messages printed are left
-- out, and the copies of the path and the name are taken to be allocated.
pub mod Existing
pub mod Missing
use embext.Base.{ℕ, zero, suc, ◌+◌, not, Option, none, some, List, length, take, drop, replicate}
use embext.Base.{get_or, bit_and, bit_or, ◌==◌, if◌then◌else◌}
use embext.Driver.{BlockDriver}
use embext.Ext2.Layout.{Inode}
use embext.Ext2.Monad.{M, pure, ◌>>=◌, ◌>>◌, get, set_file, set_errno, on_reply}
use embext.Ext2.State.{Fs, u16, u32, ext2_s_ifreg, enoent, erofs}
use embext.Ext2.Seek.{file}
use embext.Ext2.Transfer.{fs_dirty}
use embext.Ext2.Close.{ext2_flush_inode}
use embext.Ext2.Allocate.{ext2_allocate_inode}
use embext.Ext2.Directory.{Dirent}
use embext.Ext2.Lookup.{slash}
use embext.Ext2.OpenFile.{System, Opened, no_file, abandoned, open_with}
use embext.Ext2.Append.{is_value, ext2_append_to_directory}

-- The loop from the end of the name: the last '/' below index `i`.
unfoldable pub last_slash : List ℕ → ℕ → Option ℕ
last_slash name zero = none
last_slash name (suc i) = if get_or name i 0 == slash then some i else last_slash name i

-- The inode of a new file.
abbrev pub new_inode : System → ℕ → ℕ → Inode
new_inode system mode now = record {
  i_mode = bit_or mode ext2_s_ifreg;
  i_uid = u16 system.uid;
  i_size = 0;
  i_atime = u32 now;
  i_ctime = u32 now;
  i_mtime = u32 now;
  i_dtime = 0;
  i_gid = u16 system.gid;
  i_links_count = 1;
  i_blocks = 0;
  i_flags = 0;
  i_osd1 = 0;
  i_block = replicate 15 0;
  i_generation = 0;
  i_file_acl = 0;
  i_dir_acl = 0;
  i_faddr = 0;
  i_osd2 = 0;
}

module _ ⦃drv : BlockDriver⦄ where
  -- Behind the search for the last '/', at index `i`.
  unfoldable pub create_in : System → List ℕ → ℕ → ℕ → Dirent → M (Fs drv.Device) Opened
  create_in system name i mode de = do
    s ← get
    appended ←
        ext2_append_to_directory system (take i name) s.file.inode_number (drop (i + 1) name) de
    if not (is_value 0 appended.result)
        then (do set_file (λ fe. record fe { magic = 0 }); no_file appended.de)
        else do
          s ← get
          set_file (λ fe. fs_dirty (record fe { inode = new_inode system mode s.now; cursor = 0 }))
          _ ← ext2_flush_inode
          pure (record { fe = file; de = appended.de })

  -- The branch of a file that does not exist and is to be created.
  unfoldable pub create_file : System → List ℕ → ℕ → Dirent → M (Fs drv.Device) Opened
  create_file system name mode de = do
    s ← get
    if not (s.volume.context.read_only == 0) then abandoned erofs de else do
      allocated ← ext2_allocate_inode
      s ← get
      on_reply allocated (abandoned s.file.rerrno de) λ _. elim (last_slash name (length name)) [
        | none ↦ abandoned enoent de
        | some i ↦ create_in system name i mode de
      ]

  unfoldable pub ext2_open : System → List ℕ → ℕ → ℕ → Dirent → M (Fs drv.Device) Opened
  ext2_open system name flags mode de =
      open_with system (create_file system name (bit_and mode 511)) name flags mode de
