-- ===== src/Ext2/Reading/Calls.antt =====
-- The calls on a file open for reading, one by one.
use embext.Base.{ℕ, zero, suc, refl, List, [], ◌∷◌, ℤ}
use embext.Driver.{BlockDriver}
use embext.Ext2.Monad.{set_file}
use embext.Ext2.Monad.Preserves.{Preserves, Preserves-modify, Preserves-get}
use embext.Ext2.Monad.Preserves.{Preserves-pure, Preserves-undefined, preserves_rules}
use embext.Ext2.Layout.{read_inode}
use embext.Ext2.Monad.Preserves.{Preserves-defined}
use embext.Ext2.State.{FileEnt, ext2_flag_read}
use embext.Ext2.Open.{load_inode, ext2_open_inode}
use embext.Ext2.Seek.{Pointer, ext2_lseek, ext2_fstat, ext2_isatty}
use embext.Ext2.Transfer.{read_done, read_loop, ext2_read, ext2_update_atime}
use embext.Ext2.Directory.{Dirent, read_name, ext2_readdir}
use embext.Ext2.Lookup.{scan_directory, lookup_levels, ext2_lookup_path}
use embext.Ext2.OpenFile.{System, fresh_file, with_flags, abandoned, open_existing, open_missing}
use embext.Ext2.OpenFile.{open_with}
use embext.Ext2.Create.{ext2_open}
use embext.Ext2.Reading.Quiet.{IsReading, marked_reader, opened_reader, Reading-set_file}
use embext.Ext2.Reading.Quiet.{Reading-set_errno, Reading-read_sysbuf, select_buffer-Reading}
use embext.Ext2.Reading.Quiet.{read_buffer-Reading}

module _ ⦃drv : BlockDriver⦄ {d : drv.Device} where
  atime-Reading : Preserves (IsReading d) ext2_update_atime
  unfolding ext2_update_atime
  atime-Reading =
      Preserves-get _ λ s is. Reading-set_file _ (λ fe. refl) (λ fe. marked_reader fe.flags)

  read_done-Reading : (i : ℕ) (bt : List ℕ) → Preserves (IsReading d) (read_done i bt)
  unfolding read_done
  read_done-Reading i bt = search (preserves_rules, atime-Reading) depth 8

  moves-Reading :
      (f : FileEnt → ℕ) → Preserves (IsReading d) (set_file (λ fe. record fe { cursor = f fe }))
  moves-Reading f = Reading-set_file _ (λ fe. refl) (λ fe e. e)

  read_loop-Reading :
      (fuel count i : ℕ) (bt : List ℕ) → Preserves (IsReading d) (read_loop fuel count i bt)
  unfolding read_loop
  read_loop-Reading zero count i bt = Preserves-undefined
  read_loop-Reading (suc fuel) count i bt =
      search
        (
          preserves_rules,
          read_done-Reading,
          select_buffer-Reading,
          read_buffer-Reading,
          Reading-set_errno,
          moves-Reading,
          read_loop-Reading fuel,
        )
        depth 20

  pub read-Reading : (vfe : Pointer) (count : ℕ) → Preserves (IsReading d) (ext2_read vfe count)
  unfolding ext2_read
  read-Reading vfe count = search (preserves_rules, read_loop-Reading, Reading-set_errno) depth 12

  pub lseek-Reading :
      (vfe : Pointer) (offset : ℤ) (whence : ℕ)
      → Preserves (IsReading d) (ext2_lseek vfe offset whence)
  unfolding ext2_lseek
  lseek-Reading vfe offset whence =
      search (preserves_rules, moves-Reading, Reading-set_errno) depth 20

  pub fstat-Reading : (vfe : Pointer) → Preserves (IsReading d) (ext2_fstat vfe)
  unfolding ext2_fstat
  fstat-Reading vfe = search (preserves_rules, Reading-set_errno) depth 12

  pub isatty-Reading : (vfe : Pointer) → Preserves (IsReading d) (ext2_isatty vfe)
  unfolding ext2_isatty
  isatty-Reading vfe = search (preserves_rules, Reading-set_errno) depth 12

  read_name-Reading :
      (vfe : Pointer) (de : Dirent) (rec_len name_len : ℕ)
      → Preserves (IsReading d) (read_name vfe de rec_len name_len)
  unfolding read_name
  read_name-Reading vfe de rec_len name_len =
      search (preserves_rules, read-Reading, lseek-Reading) depth 12

  pub readdir-Reading :
      (vfe : Pointer) (de : Dirent) → Preserves (IsReading d) (ext2_readdir vfe de)
  unfolding ext2_readdir
  readdir-Reading vfe de = search (preserves_rules, read-Reading, read_name-Reading) depth 20

  scan-Reading :
      (fuel : ℕ) (name : List ℕ) (de : Dirent)
      → Preserves (IsReading d) (scan_directory fuel name de)
  unfolding scan_directory
  scan-Reading zero name de = Preserves-undefined
  scan-Reading (suc fuel) name de =
      search (preserves_rules, readdir-Reading, scan-Reading fuel) depth 12

  opened-Reading :
      (inode : ℕ) (bytes : List ℕ)
      → Preserves (IsReading d) (
          set_file (λ fe. record fe {
            inode = read_inode bytes;
            inode_number = inode;
            flags = ext2_flag_read;
            cursor = 0;
          }))
  opened-Reading inode bytes = Reading-set_file _ (λ fe. refl) (λ fe e. refl)

  load_inode-Reading :
      (inode block_group inode_index : ℕ)
      → Preserves (IsReading d) (load_inode inode block_group inode_index)
  unfolding load_inode
  load_inode-Reading inode block_group inode_index =
      search (preserves_rules, Preserves-defined, Reading-read_sysbuf, opened-Reading) depth 24

  pub open_inode-Reading : (inode : ℕ) → Preserves (IsReading d) (ext2_open_inode inode)
  unfolding ext2_open_inode
  open_inode-Reading inode = search (preserves_rules, load_inode-Reading) depth 16

  lookup_levels-Reading :
      (names : List (List ℕ)) (ino : ℕ) (de : Dirent)
      → Preserves (IsReading d) (lookup_levels names ino de)
  unfolding lookup_levels
  lookup_levels-Reading [] ino de = Preserves-pure _
  lookup_levels-Reading (name ∷ names) ino de =
      search
        (
          preserves_rules,
          open_inode-Reading,
          scan-Reading,
          Reading-set_errno,
          lookup_levels-Reading names,
        )
        depth 16

  pub lookup_path-Reading :
      (path : List ℕ) (de : Dirent) → Preserves (IsReading d) (ext2_lookup_path path de)
  unfolding ext2_lookup_path
  lookup_path-Reading path de = lookup_levels-Reading _ _ de

  with_flags-Reading : Preserves (IsReading d) (set_file (with_flags 0))
  with_flags-Reading = Reading-set_file _ (λ fe. refl) (λ fe. opened_reader fe.flags)

  fresh-Reading : Preserves (IsReading d) (set_file (λ fe. fresh_file))
  fresh-Reading =
      Preserves-modify _
        λ s is. record { same_device = is.same_device; clean = refl; reader = refl }

  abandoned-Reading : (e : ℕ) (de : Dirent) → Preserves (IsReading d) (abandoned e de)
  abandoned-Reading e de = search (preserves_rules, Reading-set_file, Reading-set_errno) depth 12

  -- `ext2_open` with `O_RDONLY`.
  pub open-Reading :
      (system : System) (name : List ℕ) (mode : ℕ) (de : Dirent)
      → Preserves (IsReading d) (ext2_open system name 0 mode de)
  unfolding ext2_open open_with open_missing open_existing
  open-Reading system name mode de =
      search
        (
          preserves_rules, fresh-Reading, lookup_path-Reading, open_inode-Reading,
          with_flags-Reading, abandoned-Reading, Reading-set_errno,
        )
        depth 20
