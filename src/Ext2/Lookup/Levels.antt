-- ===== src/Ext2/Lookup/Levels.antt =====
-- The lookup of the components of a path, level by level.
use embext.Base.{ℕ, ◌+◌, ◌≤◌, ◌≡◌, refl, ap, ◌∙◌, arith}
use embext.Base.{
  Option, none, some, List, [], ◌∷◌, length, minus_one, to_int, length-append, true, false, inr,
}
use embext.Driver.{BlockDriver, ok, failed}
use embext.Ext2.Monad.{◌>>=◌}
use embext.Ext2.State.{Fs, Volume, ext2_block_size, enoent}
use embext.Ext2.Group.Read.{with_sysbuf}
use embext.Ext2.Open.{ext2_open_inode}
use embext.Ext2.Open.Found.{ext2_open_inode-refused}
use embext.Ext2.Directory.{Dirent, Entry}
use embext.Ext2.Directory.Content.{IsContent, IsOpenAt}
use embext.Ext2.Directory.Entries.{DirEntry, entry_bytes, length-entry_bytes}
use embext.Ext2.Lookup.Scan.{directory_bytes, Finds, Searched, searches}
use embext.Ext2.Lookup.{scan_directory, lookup_levels}
use embext.Ext2.Lookup.Resolve.{
  HasInodes, HasDirectory, IsIdle, Resolves, LookedUp, opens, opened_at,
}
use embext.Ext2.Lookup.Resolve.{arrived, absent, above_count, below}

module _ ⦃drv : BlockDriver⦄ where
  with_sysbuf-IsContent :
      (v : Volume drv.Device) (i_block content sysbuf : List ℕ)
      → IsContent v i_block content
      → IsContent (with_sysbuf v sysbuf) i_block content
  unfolding ext2_block_size
  with_sysbuf-IsContent v i_block content sysbuf is = record {
    small_blocks = is.small_blocks;
    pointers = is.pointers;
    few = is.few;
    sector = λ c lt.
        let at = is.sector c lt in
        record {
          b = at.b;
          bytes = at.bytes;
          pointer = at.pointer;
          allocated = at.allocated;
          read = at.read;
          sized = at.sized;
          same = at.same;
        };
  }

  pub same_state :
      (s : Fs drv.Device) (v : Volume drv.Device) → s.volume ≡ v → s ≡ record s { volume = v }
  same_state s v e = rw (← e) refl

  -- One level: the directory is opened and searched.
  level_fails :
      (name : List ℕ) (names : List (List ℕ)) (n : ℕ) (de : Dirent) (s : Fs drv.Device)
      → ext2_open_inode n s ≡ some (failed, s)
      → lookup_levels (name ∷ names) n de s
        ≡ some (record { result = minus_one; de = de }, record s { errno = enoent })
  unfolding lookup_levels ◌>>=◌
  level_fails name names n de s e = ground (arith, e)

  level_absent :
      (name : List ℕ) (names : List (List ℕ)) (n : ℕ) (de : Dirent) (s s1 s2 : Fs drv.Device)
      (entry : Entry)
      → ext2_open_inode n s ≡ some (ok tt, s1)
      → scan_directory (s1.file.inode.i_size + 2) name de s1 ≡ some (entry, s2)
      → entry.is_null ≡ true
      → lookup_levels (name ∷ names) n de s
        ≡ some (record { result = minus_one; de = entry.de }, record s2 { errno = enoent })
  unfolding lookup_levels ◌>>=◌
  level_absent name names n de s s1 s2 entry e f null = ground (arith, e, f, null)

  level_below :
      (name : List ℕ) (names : List (List ℕ)) (n : ℕ) (de : Dirent) (s s1 s2 : Fs drv.Device)
      (entry : Entry)
      → ext2_open_inode n s ≡ some (ok tt, s1)
      → scan_directory (s1.file.inode.i_size + 2) name de s1 ≡ some (entry, s2)
      → entry.is_null ≡ false
      → lookup_levels (name ∷ names) n de s ≡ lookup_levels names entry.de.d_ino entry.de s2
  unfolding lookup_levels ◌>>=◌
  level_below name names n de s s1 s2 entry e f null = ground (arith, e, f, null)

  length-directory_bytes : (es : List DirEntry) → length es ≤ length (directory_bytes es)
  length-directory_bytes [] = omega arith
  length-directory_bytes (e ∷ es) = omega (
    arith,
    length-append (entry_bytes e) (directory_bytes es),
    length-entry_bytes e,
    length-directory_bytes es,
  )

  -- The directory at an inode is opened, and the search in it ends with what it has of the name.
  pub record Level (v : Volume drv.Device) (n : ℕ) (name : List ℕ) (de : Dirent) (s : Fs drv.Device)
      (r : Option ℕ) : Type 0 where
    pub sector : List ℕ
    pub sized : length sector ≡ 512
    pub start : Fs drv.Device
    pub opening : ext2_open_inode n s ≡ some (ok tt, start)
    pub search : Searched (with_sysbuf v sector) (start.file.inode.i_size + 2) name de start r

  level :
      (v : Volume drv.Device) (sysbuf : List ℕ) (s : Fs drv.Device) (n : ℕ) (name : List ℕ)
      (es : List DirEntry) (de : Dirent) (r : Option ℕ)
      → HasInodes v
      → IsIdle v sysbuf s
      → HasDirectory v n es
      → length de.d_name ≡ 256
      → Finds name es r
      → Level v n name de s r
  level v sysbuf s n name es de r is idle dir room finds =
      let (sector, ran, sized) = opens v sysbuf s n dir.inode is idle.sized dir.has in
      let start = opened_at v sector n dir.inode s in
      let at : IsOpenAt (with_sysbuf v sector) dir.inode.i_block (length (directory_bytes es)) 0
          start =
        record {
          on = refl;
          opened = idle.opened;
          blocks = refl;
          sized = dir.size;
          clean = idle.clean;
          at = refl;
        } in
      record {
        sector = sector;
        sized = sized;
        start = start;
        opening = ap (ext2_open_inode n) (same_state s (with_sysbuf v sysbuf) idle.on) ∙ ran;
        search =
            searches es (dir.inode.i_size + 2) 0 name start de r
              (with_sysbuf-IsContent v dir.inode.i_block (directory_bytes es) sector dir.content) at
              dir.entries refl (omega arith) room
              (omega (arith, length-directory_bytes es, dir.size)) finds;
      }

  behind-IsIdle :
      {v : Volume drv.Device} {n : ℕ} {name : List ℕ} {de : Dirent} {s : Fs drv.Device}
      {r : Option ℕ} (l : Level v n name de s r)
      → IsIdle v l.sector l.search.behind
  behind-IsIdle l = record {
    on = l.search.on;
    sized = l.sized;
    opened = l.search.opened;
    clean = l.search.clean;
  }

  errno-IsIdle :
      {v : Volume drv.Device} {sysbuf : List ℕ} {s : Fs drv.Device}
      → IsIdle v sysbuf s
      → IsIdle v sysbuf (record s { errno = enoent })
  errno-IsIdle idle = record {
    on = idle.on;
    sized = idle.sized;
    opened = idle.opened;
    clean = idle.clean;
  }

  pub lookup :
      (v : Volume drv.Device) (sysbuf : List ℕ) (s : Fs drv.Device) (names : List (List ℕ)) (n : ℕ)
      (de : Dirent) (r : Option ℕ)
      → HasInodes v
      → IsIdle v sysbuf s
      → length de.d_name ≡ 256
      → Resolves v n names r
      → LookedUp v names n de s r
  lookup v sysbuf s _ n de _ is idle room (arrived _) = record {
    outcome = record { result = to_int n; de = de };
    sysbuf = sysbuf;
    behind = s;
    ran = unfold lookup_levels in unfold ◌>>=◌ in refl;
    result = refl;
    error = λ e. absurd (ground (arith, e));
    idle = idle;
    room = room;
  }
  lookup v sysbuf s _ n de _ is idle room (absent _ name names es dir finds) =
      let l = level v sysbuf s n name es de none is idle dir room finds in
      record {
        outcome = record { result = minus_one; de = l.search.entry.de };
        sysbuf = l.sector;
        behind = record l.search.behind { errno = enoent };
        ran =
            level_absent name names n de s l.start l.search.behind l.search.entry l.opening
              l.search.ran l.search.answers;
        result = refl;
        error = λ e. refl;
        idle = errno-IsIdle (behind-IsIdle l);
        room = l.search.room;
      }
  lookup v sysbuf s _ n de _ is idle room (above_count _ name names above) = record {
    outcome = record { result = minus_one; de = de };
    sysbuf = sysbuf;
    behind = record s { errno = enoent };
    ran =
        level_fails name names n de s
          (ext2_open_inode-refused s n (rw idle.on is.per_group) (inr (rw idle.on above)));
    result = refl;
    error = λ e. refl;
    idle = errno-IsIdle idle;
    room = room;
  }
  lookup v sysbuf s _ n de _ is idle room (below _ name names es k r dir finds further) =
      let l = level v sysbuf s n name es de (some k) is idle dir room finds in
      let (null, number) = l.search.answers in
      let rest =
        lookup v l.sector l.search.behind names k l.search.entry.de r is (behind-IsIdle l)
          l.search.room further in
      record {
        outcome = rest.outcome;
        sysbuf = rest.sysbuf;
        behind = rest.behind;
        ran =
            level_below name names n de s l.start l.search.behind l.search.entry l.opening
              l.search.ran null
            ∙ ap (λ m. lookup_levels names m l.search.entry.de l.search.behind) number
            ∙ rest.ran;
        result = rest.result;
        error = rest.error;
        idle = rest.idle;
        room = rest.room;
      }
