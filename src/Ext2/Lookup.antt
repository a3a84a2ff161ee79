-- ===== src/Ext2/Lookup.antt =====
-- `ext2_lookup_path` of src/embext.c. A path is the bytes of a C string, without the final 0.
pub mod Scan
pub mod Resolve
pub mod Levels
pub mod Path
use embext.Base.{ℕ, zero, suc, ◌+◌, ◌-◌, List, [], ◌∷◌, ◌++◌, take, ◌==◌, if◌then◌else◌}
use embext.Base.{ℤ, minus_one, to_int}
use embext.Driver.{BlockDriver}
use embext.Ext2.Monad.{M, pure, ◌>>=◌, ◌>>◌, get, set_errno, on_reply, undefined}
use embext.Ext2.State.{Fs, ext2_root_ino, enoent}
use embext.Ext2.Seek.{Pointer, file}
use embext.Ext2.Open.{ext2_open_inode}
use embext.Ext2.Directory.{Dirent, Entry, c_string, same_bytes, ext2_readdir}

-- `MAX_PATH_LEN` and `MAX_PATH_LEVELS`
abbrev pub max_path_len : ℕ
max_path_len = 1024

abbrev pub max_path_levels : ℕ
max_path_levels = 100

-- '/'
abbrev pub slash : ℕ
slash = 47

-- A component that has been read, if there is one: `strtok` skips empty ones.
abbrev pub kept_component : List ℕ → List (List ℕ) → List (List ℕ)
kept_component [] cs = cs
kept_component (b ∷ bs) cs = (b ∷ bs) ∷ cs

-- What successive calls of `strtok` with "/" return; `token` is the component before the bytes left.
unfoldable pub components : List ℕ → List ℕ → List (List ℕ)
components token [] = kept_component token []
components token (b ∷ bs) =
    if b == slash
    then kept_component token (components [] bs)
    else components (token ++ (b ∷ [])) bs

-- `elements[0 .. levels)`
abbrev pub elements : List ℕ → List (List ℕ)
elements path = take max_path_levels (components [] (take (max_path_len - 1) path))

-- The `int` returned, and the static variable of `ext2_readdir`.
pub record Outcome : Type 0 where
  pub result : ℤ
  pub de : Dirent

module _ ⦃drv : BlockDriver⦄ where
  -- The loop over the entries of the directory that is open, for a name.
  unfoldable pub scan_directory : ℕ → List ℕ → Dirent → M (Fs drv.Device) Entry
  scan_directory zero name de = undefined
  scan_directory (suc fuel) name de = do
    entry ← ext2_readdir file de
    if entry.is_null
        then pure entry
        else if same_bytes (c_string entry.de.d_name) name
        then pure entry
        else scan_directory fuel name entry.de

  -- `*rerrno = ENOENT; return -1;`
  abbrev pub not_found : Dirent → M (Fs drv.Device) Outcome
  not_found de = do set_errno enoent; pure (record { result = minus_one; de = de })

  -- The loop over the levels, from inode `ino` on. The scan of a directory has fuel for one round a
  -- byte of it.
  unfoldable pub lookup_levels : List (List ℕ) → ℕ → Dirent → M (Fs drv.Device) Outcome
  lookup_levels [] ino de = pure (record { result = to_int ino; de = de })
  lookup_levels (name ∷ names) ino de = do
    opened ← ext2_open_inode ino
    on_reply opened (not_found de) λ _. do
      s ← get
      entry ← scan_directory (s.file.inode.i_size + 2) name de
      if entry.is_null then not_found entry.de else lookup_levels names entry.de.d_ino entry.de

  unfoldable pub ext2_lookup_path : List ℕ → Dirent → M (Fs drv.Device) Outcome
  ext2_lookup_path path de = lookup_levels (elements path) ext2_root_ino de
