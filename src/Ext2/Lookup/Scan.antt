-- ===== src/Ext2/Lookup/Scan.antt =====
-- The search for a name in a directory: what `ext2_lookup_path` does at each level.
use embext.Base.{ℕ, zero, suc, ◌+◌, ◌<◌, ◌≤◌, ◌≡◌, ◌≢◌, refl, ap, ap₂, ◌∙◌, arith}
use embext.Base.{Bool, true, false, Option, none, some, List, [], ◌∷◌, ◌++◌, length, drop}
use embext.Base.{length-append, length-drop, Bool-cases, inl, inr, ◌==◌, ◌&&◌, ==_iff}
use embext.Driver.{BlockDriver}
use embext.Ext2.Monad.{◌>>=◌}
use embext.Ext2.State.{Fs, Volume, embext_magic}
use embext.Ext2.Seek.{file}
use embext.Ext2.Directory.{Dirent, Entry, c_string, same_bytes, stored_over, ext2_readdir}
use embext.Ext2.Directory.Content.{IsContent, IsOpenAt, read_end}
use embext.Ext2.Directory.Entries.{DirEntry, entry_bytes, IsEntryAt, name_in}
use embext.Ext2.Directory.Readdir.{entry_read}
use embext.Ext2.Directory.Entries.{c_string-name_in, length-name_in, length-entry_bytes, peel}
use embext.Ext2.Directory.Readdir.{ext2_readdir-entry}
use embext.Ext2.Lookup.{scan_directory}

-- The bytes of a directory.
abbrev pub directory_bytes : List DirEntry → List ℕ
directory_bytes [] = []
directory_bytes (e ∷ es) = entry_bytes e ++ directory_bytes es

abbrev pub entry_size : DirEntry → ℕ
entry_size e = 8 + length e.name + length e.pad

-- Entries one behind the other from byte `c` on.
abbrev pub AreEntriesAt : ℕ → List DirEntry → Type 0
AreEntriesAt c [] = Unit {0}
AreEntriesAt c (e ∷ es) = IsEntryAt c e × AreEntriesAt (c + entry_size e) es

-- The inode number of the first entry of a name, if there is one.
pub data Finds (name : List ℕ) : List DirEntry → Option ℕ → Type 0 where
  nowhere : Finds name [] none
  found_here :
      (e : DirEntry) (es : List DirEntry) → e.name ≡ name → Finds name (e ∷ es) (some e.number)
  found_later :
      (e : DirEntry) (es : List DirEntry) (r : Option ℕ)
      → e.name ≢ name
      → Finds name es r
      → Finds name (e ∷ es) r

-- What the search ends with.
abbrev pub Answers : Option ℕ → Entry → Type 0
Answers none entry = entry.is_null ≡ true
Answers (some k) entry = (entry.is_null ≡ false) × (entry.de.d_ino ≡ k)

both : (a b : Bool) → (a && b) ≡ true → (a ≡ true) × (b ≡ true)
both true true e = (refl, refl)
both true false e = (refl, e)
both false b e = (e, cc)

same_bytes_self : (xs : List ℕ) → same_bytes xs xs ≡ true
same_bytes_self [] = refl
same_bytes_self (x ∷ xs) = ground (arith, same_bytes_self xs)

same_bytes→eq : (xs ys : List ℕ) → same_bytes xs ys ≡ true → xs ≡ ys
same_bytes→eq [] [] e = refl
same_bytes→eq [] (y ∷ ys) e = cc
same_bytes→eq (x ∷ xs) [] e = cc
same_bytes→eq (x ∷ xs) (y ∷ ys) e =
    let (first, rest) = both (x == y) (same_bytes xs ys) e in
    ap₂ (λ z zs. z ∷ zs) ((==_iff x y).0 first) (same_bytes→eq xs ys rest)

other_bytes : (xs ys : List ℕ) → xs ≢ ys → same_bytes xs ys ≡ false
other_bytes xs ys ne = elim (Bool-cases (same_bytes xs ys)) [
  | inl same ↦ absurd (ne (same_bytes→eq xs ys same))
  | inr other ↦ other
]

module _ ⦃drv : BlockDriver⦄ where
  -- At the end of a directory there is no entry.
  ext2_readdir-end :
      (s : Fs drv.Device) (de : Dirent)
      → s.file.magic ≡ embext_magic
      → s.file.inode.i_size ≤ s.file.cursor
      → ext2_readdir file de s
        ≡ some (record { is_null = true; de = record de { d_ino = stored_over 4 de.d_ino [] } }, s)
  unfolding ext2_readdir ◌>>=◌
  ext2_readdir-end s de opened ended = ground (arith, read_end 4 s opened ended)

  ends :
      (fuel : ℕ) (name : List ℕ) (s s1 : Fs drv.Device) (de : Dirent) (entry : Entry)
      → ext2_readdir file de s ≡ some (entry, s1)
      → entry.is_null ≡ true
      → scan_directory (suc fuel) name de s ≡ some (entry, s1)
  unfolding scan_directory ◌>>=◌
  ends fuel name s s1 de entry e null = ground (arith, e, null)

  matches :
      (fuel : ℕ) (name : List ℕ) (s s1 : Fs drv.Device) (de : Dirent) (entry : Entry)
      → ext2_readdir file de s ≡ some (entry, s1)
      → entry.is_null ≡ false
      → same_bytes (c_string entry.de.d_name) name ≡ true
      → scan_directory (suc fuel) name de s ≡ some (entry, s1)
  unfolding scan_directory ◌>>=◌
  matches fuel name s s1 de entry e null same = ground (arith, e, null, same)

  goes_on :
      (fuel : ℕ) (name : List ℕ) (s s1 : Fs drv.Device) (de : Dirent) (entry : Entry)
      → ext2_readdir file de s ≡ some (entry, s1)
      → entry.is_null ≡ false
      → same_bytes (c_string entry.de.d_name) name ≡ false
      → scan_directory (suc fuel) name de s ≡ scan_directory fuel name entry.de s1
  unfolding scan_directory ◌>>=◌
  goes_on fuel name s s1 de entry e null other = ground (arith, e, null, other)

  -- The search of a directory open at a byte, for a name, ends, and with the answer `r`.
  pub record Searched (v : Volume drv.Device) (fuel : ℕ) (name : List ℕ) (de : Dirent)
      (s : Fs drv.Device) (r : Option ℕ) : Type 0 where
    pub entry : Entry
    pub behind : Fs drv.Device
    pub ran : scan_directory fuel name de s ≡ some (entry, behind)
    pub answers : Answers r entry
    pub on : behind.volume ≡ v
    pub opened : behind.file.magic ≡ embext_magic
    pub clean : behind.file.buffer.dirty ≡ 0
    pub room : length entry.de.d_name ≡ 256

  ended :
      {v : Volume drv.Device} {i_block : List ℕ} (content : List ℕ) (fuel c : ℕ) (name : List ℕ)
      (s : Fs drv.Device) (de : Dirent)
      → IsOpenAt v i_block (length content) c s
      → drop c content ≡ []
      → length de.d_name ≡ 256
      → Searched v (suc fuel) name de s none
  ended content fuel c name s de here empty room =
      let past : s.file.inode.i_size ≤ s.file.cursor =
        omega (arith, here.at, here.sized, ap length empty, length-drop c content) in
      let de' = record de { d_ino = stored_over 4 de.d_ino [] } in
      record {
        entry = record { is_null = true; de = de' };
        behind = s;
        ran = ends fuel name s s de _ (ext2_readdir-end s de here.opened past) refl;
        answers = refl;
        on = here.on;
        opened = here.opened;
        clean = here.clean;
        room = room;
      }

  module _ {v : Volume drv.Device} {i_block content : List ℕ} where
    -- The search from an entry on.
    pub searches :
        (es : List DirEntry) (fuel c : ℕ) (name : List ℕ) (s : Fs drv.Device) (de : Dirent)
        (r : Option ℕ)
        → IsContent v i_block content
        → IsOpenAt v i_block (length content) c s
        → AreEntriesAt c es
        → drop c content ≡ directory_bytes es
        → c ≤ length content
        → length de.d_name ≡ 256
        → length es < fuel
        → Finds name es r
        → Searched v fuel name de s r
    searches [] zero c name s de r is at entries whole le room enough finds = absurd (omega arith)
    searches (e ∷ es) zero c name s de r is at entries whole le room enough finds =
        absurd (omega arith)
    searches [] (suc fuel) c name s de _ is at entries whole le room enough nowhere =
        ended content fuel c name s de at whole room
    searches (e ∷ es) (suc fuel) c name s de _ is at (entry, entries) whole le room enough
          (found_here _ _ named) =
        let (s1, read, there) =
          ext2_readdir-entry c s de e (directory_bytes es) is at entry whole le in
        let text : c_string (name_in de.d_name e.name) ≡ e.name =
          c_string-name_in de.d_name e.name entry.text (omega (arith, room, entry.short)) in
        record {
          entry = entry_read de e;
          behind = s1;
          ran =
              matches fuel name s s1 de (entry_read de e) read refl
                (rw (text, named) (same_bytes_self name));
          answers = (refl, refl);
          on = there.on;
          opened = there.opened;
          clean = there.clean;
          room = length-name_in de.d_name e.name (omega (arith, room, entry.short)) ∙ room;
        }
    searches (e ∷ es) (suc fuel) c name s de _ is at (entry, entries) whole le room enough
          (found_later _ _ r other finds) =
        let (s1, read, there) =
          ext2_readdir-entry c s de e (directory_bytes es) is at entry whole le in
        let text : c_string (name_in de.d_name e.name) ≡ e.name =
          c_string-name_in de.d_name e.name entry.text (omega (arith, room, entry.short)) in
        let room' = length-name_in de.d_name e.name (omega (arith, room, entry.short)) ∙ room in
        let (_, behind) =
          peel c content (entry_bytes e) (directory_bytes es) (entry_size e) whole
            (length-entry_bytes e) in
        let further : c + entry_size e ≤ length content = omega (
          arith,
          ap length whole,
          length-drop c content,
          length-append (entry_bytes e) (directory_bytes es),
          length-entry_bytes e,
          le,
        ) in
        let rest =
          searches es fuel (c + entry_size e) name s1 (entry_read de e).de r is there entries behind
            further room' (omega (arith, enough)) finds in
        record {
          entry = rest.entry;
          behind = rest.behind;
          ran =
              goes_on fuel name s s1 de (entry_read de e) read refl
                (rw text (other_bytes e.name name other))
              ∙ rest.ran;
          answers = rest.answers;
          on = rest.on;
          opened = rest.opened;
          clean = rest.clean;
          room = rest.room;
        }
