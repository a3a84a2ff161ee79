-- ===== src/Ext2/Create/Missing.antt =====
-- `ext2_open` of a path that leads nowhere.
use embext.Base.{ℕ, ◌-◌, ◌^◌, ◌<◌, ◌≤◌, ◌≡◌, ◌≢◌, refl, ap, ◌∙◌, arith}
use embext.Base.{true, false, ◌==◌, Option, none, some, List, length}
use embext.Base.{bit_and, if◌then◌else◌, to_uint32, inl, inr, Bool-cases}
use embext.Driver.{BlockDriver}
use embext.Ext2.Monad.{◌>>=◌}
use embext.Ext2.State.{Fs, Volume, ext2_root_ino}
use embext.Ext2.State.{enoent, erofs}
use embext.Ext2.Group.Read.{with_sysbuf}
use embext.Ext2.Seek.{null}
use embext.Ext2.Open.{ext2_open_inode}
use embext.Ext2.Open.Found.{ext2_open_inode-refused}
use embext.Ext2.Directory.{Dirent}
use embext.Ext2.Lookup.{max_path_len, max_path_levels}
use embext.Ext2.Lookup.Resolve.{HasInodes, Resolves}
use embext.Ext2.Lookup.Path.{AreComponents, path_of, looked_up}
use embext.Ext2.OpenFile.{System, is_set, o_creat}
use embext.Ext2.OpenFile.{fresh_file, with_flags, open_missing}
use embext.Ext2.Create.{create_file, ext2_open}
use embext.Ext2.Create.Existing.{not_there, fresh_file-IsIdle}

module _ ⦃drv : BlockDriver⦄ where
  -- What follows for a path that leads nowhere.
  missing :
      (system : System) (name : List ℕ) (flags mode : ℕ) (de : Dirent) (s : Fs drv.Device)
      → is_set flags o_creat ≡ false
      → open_missing (create_file system name mode) flags de s
        ≡ some (
          record { fe = null; de = de },
          record s { file = record s.file { magic = 0 }; errno = enoent },
        )
  unfolding open_missing ◌>>=◌
  missing system name flags mode de s plain = ground (arith, plain)

  read_only :
      (system : System) (name : List ℕ) (flags mode : ℕ) (de : Dirent) (s : Fs drv.Device)
      → is_set flags o_creat ≡ true
      → s.volume.context.read_only ≢ 0
      → open_missing (create_file system name mode) flags de s
        ≡ some (
          record { fe = null; de = de },
          record s { file = record s.file { magic = 0 }; errno = erofs },
        )
  unfolding open_missing create_file ◌>>=◌
  read_only system name flags mode de s create ro = ground (arith, create, ro)

  -- The error of a call for a path that leads nowhere, on a volume that is read-only or not; none
  -- where the file is to be created.
  abbrev pub missing_error : ℕ → ℕ → Option ℕ
  missing_error flags read_only =
      if is_set flags o_creat then if read_only == 0 then none else some erofs else some enoent

  ends :
      (system : System) (name : List ℕ) (flags mode e : ℕ) (de : Dirent) (s : Fs drv.Device)
      → missing_error flags s.volume.context.read_only ≡ some e
      → open_missing (create_file system name mode) flags de s
        ≡ some (
          record { fe = null; de = de },
          record s { file = record s.file { magic = 0 }; errno = e },
        )
  ends system name flags mode e de s error = elim (Bool-cases (is_set flags o_creat)) [
    | inl create ↦ elim (Bool-cases (s.volume.context.read_only == 0)) [
      | inl writable ↦ absurd (ground (arith, error, create, writable))
      | inr ro ↦
          let same : erofs ≡ e = ground (arith, error, create, ro) in
          rw (← same) (read_only system name flags mode de s create (ground (arith, ro)))
    ]
    | inr plain ↦
        let same : enoent ≡ e = ground (arith, error, plain) in
        rw (← same) (missing system name flags mode de s plain)
  ]

  -- For a path that the directories on the device do not lead to an inode, on a volume of less than
  -- 2^32 - 1 inodes, the other conditions the same: a call without `O_CREAT` is refused with
  -- ENOENT, and one with it on a read-only volume with EROFS (`missing_error`). Nothing is written.
  pub ext2_open-missing :
      (v : Volume drv.Device) (sysbuf : List ℕ) (s : Fs drv.Device) (names : List (List ℕ))
      (system : System) (flags mode e : ℕ) (de : Dirent)
      → HasInodes v
      → s.volume ≡ with_sysbuf v sysbuf
      → length sysbuf ≡ 512
      → length de.d_name ≡ 256
      → system.memory ≡ true
      → AreComponents names
      → length names ≤ max_path_levels
      → length (path_of names) < max_path_len
      → Resolves v ext2_root_ino names none
      → v.context.superblock.s_inodes_count < 2 ^ 32 - 1
      → missing_error flags v.context.read_only ≡ some e
      → (de' : Dirent) × (s' : Fs drv.Device) × (ext2_open system (path_of names) flags mode de s
          ≡ some (record { fe = null; de = de' }, s'))
        × (s'.errno ≡ e)
        × (s'.volume.device ≡ v.device)
  ext2_open-missing v sysbuf s names system flags mode e de is on sized room memory are few short
        resolves count error =
      let start = record s { file = fresh_file } in
      let (l, look) =
        looked_up v sysbuf start names de none is (fresh_file-IsIdle v sysbuf s on sized) room are
          few short resolves in
      let number : to_uint32 l.outcome.result ≡ 2 ^ 32 - 1 = ap to_uint32 l.result in
      let refused =
        ap (λ n. ext2_open_inode n l.behind) number
        ∙ ext2_open_inode-refused l.behind (2 ^ 32 - 1) (rw l.idle.on is.per_group)
            (inr (rw l.idle.on count)) in
      let s1 = record l.behind { file = with_flags flags l.behind.file } in
      (
        l.outcome.de,
        record s1 { file = record s1.file { magic = 0 }; errno = e },
        not_there system (path_of names) flags mode de s l.behind l.outcome memory look refused
              (l.error refl)
            ∙ ends system (path_of names) flags (bit_and mode 511) e l.outcome.de s1
                (rw l.idle.on error),
        refl,
        ap (λ w. w.device) l.idle.on,
      )
