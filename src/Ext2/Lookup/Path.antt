-- ===== src/Ext2/Lookup/Path.antt =====
-- The components of a path, and the lookup of a whole path.
use embext.Base.{ℕ, ◌-◌, ◌<◌, ◌≤◌, ◌≡◌, ◌≢◌, refl, ap, ◌∙◌, arith}
use embext.Base.{Option, none, some, List, [], ◌∷◌, ◌++◌, length, take_of_length_le}
use embext.Base.{false, ◌==◌}
use mathlib.Core.List.{append_assoc, append-nil}
use embext.Driver.{BlockDriver}
use embext.Ext2.State.{Fs, Volume, ext2_root_ino, enoent}
use embext.Ext2.Directory.{Dirent}
use embext.Ext2.Lookup.{slash, kept_component, components, elements, max_path_len, max_path_levels}
use embext.Ext2.Lookup.{Outcome, ext2_lookup_path}
use embext.Ext2.Lookup.Resolve.{HasInodes, IsIdle, Resolves, LookedUp, result_of}
use embext.Ext2.Lookup.Levels.{lookup}

abbrev pub HasNoSlash : List ℕ → Type 0
HasNoSlash [] = Unit {0}
HasNoSlash (b ∷ bs) = (b ≢ slash) × HasNoSlash bs

abbrev pub AreComponents : List (List ℕ) → Type 0
AreComponents [] = Unit {0}
AreComponents (name ∷ names) = (name ≢ []) × HasNoSlash name × AreComponents names

-- The error number behind a lookup that found nothing.
abbrev pub IsErrorOf : Option ℕ → ℕ → Type 0
IsErrorOf none errno = errno ≡ enoent
IsErrorOf (some k) errno = Unit {0}

error_of : (r : Option ℕ) (errno : ℕ) → (r ≡ none → errno ≡ enoent) → IsErrorOf r errno
error_of none errno e = e refl
error_of (some k) errno e = tt

-- The absolute path of some components.
abbrev pub path_of : List (List ℕ) → List ℕ
path_of [] = []
path_of (name ∷ names) = slash ∷ (name ++ path_of names)

-- A component is gathered up to the next slash.
gathered :
    (token name rest : List ℕ)
    → HasNoSlash name
    → components token (name ++ rest) ≡ components (token ++ name) rest
unfolding components
gathered token [] rest free = rw (append-nil token) refl
gathered token (b ∷ bs) rest (other, free) =
    let e : (b == slash) ≡ false = ground (arith, other) in
    rw e (
      gathered (token ++ (b ∷ [])) bs rest free
      ∙ ap (λ t. components t rest) (append_assoc token (b ∷ []) bs))

kept_component-cons :
    (name : List ℕ) (cs : List (List ℕ)) → name ≢ [] → kept_component name cs ≡ name ∷ cs
kept_component-cons [] cs some_left = absurd (some_left refl)
kept_component-cons (b ∷ bs) cs some_left = refl

-- Behind a component, which is kept if it is not empty.
behind_token :
    (token : List ℕ) (names : List (List ℕ))
    → AreComponents names
    → components token (path_of names) ≡ kept_component token names
unfolding components
behind_token token [] are = refl
behind_token token (name ∷ names) (some_left, free, are) = ap (kept_component token) (
    gathered [] name (path_of names) free
    ∙ behind_token name names are
    ∙ kept_component-cons name names some_left)

-- The components of an absolute path: as many as 100 of them, neither empty nor with a slash,
-- whose path has at most 1023 bytes, are found again by the splitting of `ext2_lookup_path`.
pub elements-path_of :
    (names : List (List ℕ))
    → AreComponents names
    → length names ≤ max_path_levels
    → length (path_of names) < max_path_len
    → elements (path_of names) ≡ names
elements-path_of names are few short =
    rw
      (
        take_of_length_le (max_path_len - 1) (path_of names) (omega (arith, short)),
        behind_token [] names are,
      )
      (take_of_length_le max_path_levels names few)

module _ ⦃drv : BlockDriver⦄ where
  -- The path of some components is looked up from the root.
  pub looked_up :
      (v : Volume drv.Device) (sysbuf : List ℕ) (s : Fs drv.Device) (names : List (List ℕ))
      (de : Dirent) (r : Option ℕ)
      → HasInodes v
      → IsIdle v sysbuf s
      → length de.d_name ≡ 256
      → AreComponents names
      → length names ≤ max_path_levels
      → length (path_of names) < max_path_len
      → Resolves v ext2_root_ino names r
      → (l : LookedUp v names ext2_root_ino de s r) × (ext2_lookup_path (path_of names) de s
          ≡ some (l.outcome, l.behind))
  unfolding ext2_lookup_path
  looked_up v sysbuf s names de r is idle room are few short resolves =
      let l = lookup v sysbuf s names ext2_root_ino de r is idle room resolves in
      (l, rw (elements-path_of names are few short) l.ran)

  -- On a mounted volume with inodes of 128 bytes, no file modified, the absolute path of at most
  -- 100 components and 1023 bytes, with `r` what the directories on the device have of it
  -- (`Resolves`): the inode number that the entries lead to, the first of a name counting, or none,
  -- where a directory lacks the name or an entry on the way numbers no inode. The directories are
  -- in direct blocks of 1024 bytes, their names in one sector each (`HasDirectory`). Then
  -- `ext2_lookup_path` ends, returns the number, or -1 with ENOENT, and leaves the device as it was.
  pub ext2_lookup_path-Resolves :
      (v : Volume drv.Device) (sysbuf : List ℕ) (s : Fs drv.Device) (names : List (List ℕ))
      (de : Dirent) (r : Option ℕ)
      → HasInodes v
      → IsIdle v sysbuf s
      → length de.d_name ≡ 256
      → AreComponents names
      → length names ≤ max_path_levels
      → length (path_of names) < max_path_len
      → Resolves v ext2_root_ino names r
      → (outcome : Outcome) × (s' : Fs drv.Device) × (ext2_lookup_path (path_of names) de s
          ≡ some (outcome, s'))
        × (outcome.result ≡ result_of r)
        × IsErrorOf r s'.errno
        × (s'.volume.device ≡ v.device)
  ext2_lookup_path-Resolves v sysbuf s names de r is idle room are few short resolves =
      let (l, ran) = looked_up v sysbuf s names de r is idle room are few short resolves in
      (
        l.outcome,
        l.behind,
        ran,
        l.result,
        error_of r l.behind.errno l.error,
        ap (λ w. w.device) l.idle.on,
      )
