-- ===== src/Ext2/Create/Existing.antt =====
-- `ext2_open` of a path that leads to an inode.
use embext.Base.{ℕ, ◌^◌, ◌<◌, ◌≤◌, ◌≡◌, refl, ap, ◌∙◌, arith}
use embext.Base.{Bool, true, false, not, ◌&&◌, ◌==◌, Option, none, some, List, length}
use embext.Base.{bit_and, bit_or, if◌then◌else◌, to_int, to_uint32}
use embext.Driver.{BlockDriver, ok, failed}
use embext.Ext2.Layout.{Inode}
use embext.Ext2.Monad.{◌>>=◌}
use embext.Ext2.State.{Fs, Volume, ext2_root_ino, ext2_flag_read, ext2_s_ifdir}
use embext.Ext2.State.{embext_magic, enoent, eexist, erofs, eisdir}
use embext.Ext2.Group.Read.{with_sysbuf}
use embext.Ext2.Seek.{null, file}
use embext.Ext2.Open.{ext2_open_inode}
use embext.Ext2.Directory.{Dirent}
use embext.Ext2.Lookup.{ext2_lookup_path, Outcome, max_path_len, max_path_levels}
use embext.Ext2.Lookup.Resolve.{HasInodes, HasInode, IsIdle, Resolves, opens, opened_at}
use embext.Ext2.Lookup.Levels.{same_state}
use embext.Ext2.Lookup.Path.{AreComponents, path_of, looked_up}
use embext.Ext2.OpenFile.{System, Opened, is_set, o_creat, o_excl, o_trunc, o_wronly, o_rdwr}
use embext.Ext2.OpenFile.{
  fresh_file, access_flags, append_flags, with_flags, open_existing, open_missing, open_with,
}
use embext.Ext2.Create.{create_file, ext2_open}

-- Why a call on a file that exists is refused, if it is: by its flags, whether it comes from inside
-- the driver, whether the volume is read-only, and the mode of the inode.
abbrev pub refusal : ℕ → Bool → ℕ → ℕ → Option ℕ
refusal flags internal_call read_only i_mode =
    if is_set flags o_creat && is_set flags o_excl
    then some eexist
    else if bit_and flags (bit_or o_wronly o_rdwr) == 0
    then none
    else if not (read_only == 0)
    then some erofs
    else if is_set i_mode ext2_s_ifdir && not internal_call
    then some eisdir
    else none

module _ ⦃drv : BlockDriver⦄ where
  -- The state behind a call that is not refused, or is.
  abbrev pub opened_or_refused : Option ℕ → Dirent → Fs drv.Device → Opened × Fs drv.Device
  opened_or_refused none de s = (record { fe = file; de = de }, s)
  opened_or_refused (some e) de s = (record { fe = null; de = de }, record s { errno = e })

  existing :
      (flags : ℕ) (internal_call : Bool) (de : Dirent) (s : Fs drv.Device)
      → is_set flags o_trunc ≡ false
      → open_existing flags internal_call de s
        ≡ some (
            opened_or_refused
              (refusal flags internal_call s.volume.context.read_only s.file.inode.i_mode)
              de
              s)
  unfolding open_existing ◌>>=◌
  existing flags internal_call de s kept = ground (arith, kept)

  found :
      (system : System) (name : List ℕ) (flags mode : ℕ) (de : Dirent) (s s1 s2 : Fs drv.Device)
      (looked : Outcome)
      → system.memory ≡ true
      → ext2_lookup_path name de (record s { file = fresh_file }) ≡ some (looked, s1)
      → ext2_open_inode (to_uint32 looked.result) s1 ≡ some (ok tt, s2)
      → ext2_open system name flags mode de s
        ≡ open_existing flags
            (is_set mode 512)
            looked.de
            (record s2 { file = with_flags flags s2.file })
  unfolding ext2_open open_with ◌>>=◌
  found system name flags mode de s s1 s2 looked memory look open_it =
      ground (arith, memory, look, open_it)

  pub not_there :
      (system : System) (name : List ℕ) (flags mode : ℕ) (de : Dirent) (s s1 : Fs drv.Device)
      (looked : Outcome)
      → system.memory ≡ true
      → ext2_lookup_path name de (record s { file = fresh_file }) ≡ some (looked, s1)
      → ext2_open_inode (to_uint32 looked.result) s1 ≡ some (failed, s1)
      → s1.errno ≡ enoent
      → ext2_open system name flags mode de s
        ≡ open_missing
            (create_file system name (bit_and mode 511))
            flags
            looked.de
            (record s1 { file = with_flags flags s1.file })
  unfolding ext2_open open_with ◌>>=◌
  not_there system name flags mode de s s1 looked memory look open_it unknown =
      ground (arith, memory, look, open_it, unknown)

  number_back : (k : ℕ) → k < 2 ^ 31 → to_uint32 (to_int k) ≡ k
  number_back k small = ground (arith, small)

  -- The file behind a call of `ext2_open`: at the start of inode `k`, open as the flags say.
  pub record IsOpened (v : Volume drv.Device) (k : ℕ) (inode : Inode) (flags : ℕ)
      (s : Fs drv.Device) : Type 0 where
    pub holds : s.file.inode ≡ inode
    pub numbered : s.file.inode_number ≡ k
    pub started : s.file.cursor ≡ 0
    pub opened : s.file.magic ≡ embext_magic
    pub clean : s.file.buffer.dirty ≡ 0
    pub allowed :
        s.file.flags ≡ bit_or (bit_or ext2_flag_read (access_flags flags)) (append_flags flags)
    pub same_device : s.volume.device ≡ v.device

  -- With an idle volume of which nothing is written yet.
  pub fresh_file-IsIdle :
      (v : Volume drv.Device) (sysbuf : List ℕ) (s : Fs drv.Device)
      → s.volume ≡ with_sysbuf v sysbuf
      → length sysbuf ≡ 512
      → IsIdle v sysbuf (record s { file = fresh_file })
  fresh_file-IsIdle v sysbuf s on sized = record {
    on = on;
    sized = sized;
    opened = refl;
    clean = refl;
  }

  -- On a mounted volume with inodes of 128 bytes, a call of `ext2_open` without `O_TRUNC` for an
  -- absolute path of at most 100 components and 1023 bytes, which the directories on the device
  -- lead to the inode of a number. `refusal` decides: EEXIST for `O_CREAT` with `O_EXCL`; else a
  -- call for reading is granted; else EROFS on a read-only volume, and EISDIR for a directory,
  -- unless the driver itself calls. A call granted has the inode of the device, the cursor at the
  -- start, and the flags asked for beside that for reading, which is always set. Nothing is
  -- written.
  pub ext2_open-refusal :
      (v : Volume drv.Device) (sysbuf : List ℕ) (s : Fs drv.Device) (names : List (List ℕ)) (k : ℕ)
      (inode : Inode) (system : System) (flags mode : ℕ) (de : Dirent)
      → HasInodes v
      → s.volume ≡ with_sysbuf v sysbuf
      → length sysbuf ≡ 512
      → length de.d_name ≡ 256
      → system.memory ≡ true
      → AreComponents names
      → length names ≤ max_path_levels
      → length (path_of names) < max_path_len
      → Resolves v ext2_root_ino names (some k)
      → HasInode v k inode
      → is_set flags o_trunc ≡ false
      → (de' : Dirent) × (s' : Fs drv.Device) × (ext2_open system (path_of names) flags mode de s
          ≡ some (
              opened_or_refused
                (refusal flags (is_set mode 512) v.context.read_only inode.i_mode)
                de'
                s'))
        × IsOpened v k inode flags s'
  ext2_open-refusal v sysbuf s names k inode system flags mode de is on sized room memory are few
        short resolves has kept =
      let start = record s { file = fresh_file } in
      let (l, look) =
        looked_up v sysbuf start names de (some k) is (fresh_file-IsIdle v sysbuf s on sized) room
          are few short resolves in
      let number : to_uint32 l.outcome.result ≡ k =
        ap to_uint32 l.result ∙ number_back k has.small in
      let (sector, opening, _) = opens v l.sysbuf l.behind k inode is l.idle.sized has in
      let s2 = opened_at v sector k inode l.behind in
      let step : ext2_open_inode (to_uint32 l.outcome.result) l.behind ≡ some (ok tt, s2) =
        ap (λ n. ext2_open_inode n l.behind) number
        ∙ ap (ext2_open_inode k) (same_state l.behind (with_sysbuf v l.sysbuf) l.idle.on)
        ∙ opening in
      let s3 = record s2 { file = with_flags flags s2.file } in
      (
        l.outcome.de,
        s3,
        found system (path_of names) flags mode de s l.behind s2 l.outcome memory look step
            ∙ existing flags (is_set mode 512) l.outcome.de s3 kept,
        record {
          holds = refl;
          numbered = refl;
          started = refl;
          opened = l.idle.opened;
          clean = l.idle.clean;
          allowed = refl;
          same_device = refl;
        },
      )
