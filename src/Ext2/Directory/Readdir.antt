-- ===== src/Ext2/Directory/Readdir.antt =====
-- What `ext2_readdir` makes of an entry.
use embext.Base.{ℕ, zero, suc, ◌+◌, ◌*◌, ◌%◌, ◌^◌, ◌<◌, ◌≤◌, ◌≡◌, ◌∙◌}
use embext.Base.{arith, some, false, List, ◌++◌, length, take, drop, set, overlay, pos}
use embext.Base.{sub_ℕ}
use embext.Base.{ℤ, to_int}
use embext.Bytes.{le_decode}
use embext.Bytes.RoundTrip.{le_decode-le_encode}
use embext.Driver.{BlockDriver}
use embext.Ext2.Monad.{◌>>=◌}
use embext.Ext2.State.{Fs, Volume, embext_magic}
use embext.Ext2.Seek.{file, ext2_lseek, seek_cur}
use embext.Ext2.Transfer.{ext2_read}
use embext.Ext2.Directory.{Dirent, Entry, stored_over}
use embext.Ext2.Directory.{read_name, ext2_readdir}
use embext.Ext2.Directory.Content.{IsContent, IsOpenAt, read_content, read_none}
use embext.Ext2.Directory.Entries.{DirEntry, entry_bytes, IsEntryAt, peeled, name_in}
use embext.Ext2.Directory.Entries.{stored_over-le_encode}

-- What `ext2_readdir` returns for an entry.
abbrev pub entry_read : Dirent → DirEntry → Entry
entry_read de e = record {
  is_null = false;
  de = record { d_ino = e.number; d_name = name_in de.d_name e.name };
}

module _ ⦃drv : BlockDriver⦄ where
  -- The step behind the name, to the next entry.
  steps :
      (s : Fs drv.Device) (n p : ℕ)
      → s.file.magic ≡ embext_magic
      → s.file.cursor + p < 2 ^ 31
      → (k : ℤ) × (ext2_lseek file (sub_ℕ (8 + n + p) (8 + n)) seek_cur s
          ≡ some (k, record s { file = record s.file { cursor = p + s.file.cursor } }))
  unfolding ext2_lseek ◌>>=◌
  steps s n p opened small = (to_int (p + s.file.cursor), ground (arith, opened, small))

  names :
      (s s1 : Fs drv.Device) (de : Dirent) (n p : ℕ) (k : ℤ) (bytes : List ℕ)
      → ext2_read file n s ≡ some (record { returned = pos n; bytes = bytes }, s1)
      → ext2_lseek file (sub_ℕ (8 + n + p) (8 + n)) seek_cur s1
        ≡ some (k, record s1 { file = record s1.file { cursor = p + s1.file.cursor } })
      → read_name file de (8 + n + p) n s
        ≡ some (
          record {
            is_null = false;
            de = record de { d_name = set (overlay de.d_name 0 bytes) n 0 };
          },
          record s1 { file = record s1.file { cursor = p + s1.file.cursor } },
        )
  unfolding read_name ◌>>=◌
  names s s1 de n p k bytes read step = ground (arith, read, step)

  -- The four fields of the header, each read whole, and an inode number that an `int` holds.
  headed :
      (s s1 s2 s3 s4 : Fs drv.Device) (de : Dirent) (b4 b2 b1 b0 : List ℕ)
      → ext2_read file 4 s ≡ some (record { returned = pos 4; bytes = b4 }, s1)
      → ext2_read file 2 s1 ≡ some (record { returned = pos 2; bytes = b2 }, s2)
      → ext2_read file 1 s2 ≡ some (record { returned = pos 1; bytes = b1 }, s3)
      → ext2_read file 1 s3 ≡ some (record { returned = pos 1; bytes = b0 }, s4)
      → 0 < stored_over 4 de.d_ino b4
      → stored_over 4 de.d_ino b4 < 2 ^ 31
      → ext2_readdir file de s
        ≡ read_name file
            (record de { d_ino = stored_over 4 de.d_ino b4 })
            (le_decode b2)
            (le_decode b1)
            s4
  unfolding ext2_readdir ◌>>=◌
  headed s s1 s2 s3 s4 de b4 b2 b1 b0 r4 r2 r1 r0 positive small =
      ground (arith, r4, r2, r1, r0, positive, small)

  moved_on :
      {v : Volume drv.Device} {i_block : List ℕ} {size : ℕ} (c c' p : ℕ) (s : Fs drv.Device)
      → IsOpenAt v i_block size c s
      → c + p ≡ c'
      → IsOpenAt v i_block size c'
          (record s { file = record s.file { cursor = p + s.file.cursor } })
  moved_on c c' p s here e = record {
    on = here.on;
    opened = here.opened;
    blocks = here.blocks;
    sized = here.sized;
    clean = here.clean;
    at = omega (arith, here.at, e);
  }

  module _ {v : Volume drv.Device} {i_block content : List ℕ} where
    -- A read of the file's bytes, which are known.
    reads :
        (c k : ℕ) (s : Fs drv.Device) (bytes : List ℕ)
        → IsContent v i_block content
        → IsOpenAt v i_block (length content) c s
        → c % 512 + k ≤ 512
        → c + k ≤ length content
        → take k (drop c content) ≡ bytes
        → (s' : Fs drv.Device) × (ext2_read file k s
            ≡ some (record { returned = pos k; bytes = bytes }, s'))
          × IsOpenAt v i_block (length content) (c + k) s'
    reads c zero s bytes is here inside ends same =
        let e : c + 0 ≡ c = omega arith in (s, rw (← same) (read_none s here.opened), rw e here)
    reads c (suc k) s bytes is here inside ends same =
        let (s', e, there) = read_content c (suc k) s is here (omega arith) inside ends in
        (s', rw same at e, there)

    -- A directory in direct blocks of 1024 bytes whose bytes are known, with the cursor on an entry
    -- whose name lies in one sector (`IsEntryAt`): `ext2_readdir` returns its inode number and its
    -- name, and moves the cursor to the next entry; the volume is what it was.
    pub ext2_readdir-entry :
        (c : ℕ) (s : Fs drv.Device) (de : Dirent) (e : DirEntry) (rest : List ℕ)
        → IsContent v i_block content
        → IsOpenAt v i_block (length content) c s
        → IsEntryAt c e
        → drop c content ≡ entry_bytes e ++ rest
        → c ≤ length content
        → (s' : Fs drv.Device) × (ext2_readdir file de s ≡ some (entry_read de e, s'))
          × IsOpenAt v i_block (length content) (c + (8 + length e.name + length e.pad)) s'
    ext2_readdir-entry c s de e rest is here entry whole le =
        let p = peeled c content e rest le whole in
        let n = length e.name in
        let in4 : c % 512 + 4 ≤ 512 = omega (arith, entry.aligned) in
        let in2 : (c + 4) % 512 + 2 ≤ 512 = omega (arith, entry.aligned) in
        let in1 : (c + 4 + 2) % 512 + 1 ≤ 512 = omega arith in
        let in0 : (c + 4 + 2 + 1) % 512 + 1 ≤ 512 = omega arith in
        let inn : (c + 4 + 2 + 1 + 1) % 512 + n ≤ 512 =
          let place : c + 4 + 2 + 1 + 1 ≡ c + 8 = omega arith in rw place entry.inside in
        let (s1, r4, h1) = reads c 4 s _ is here in4 (omega (arith, p.ends)) p.ino in
        let (s2, r2, h2) = reads (c + 4) 2 s1 _ is h1 in2 (omega (arith, p.ends)) p.len in
        let (s3, r1, h3) = reads (c + 4 + 2) 1 s2 _ is h2 in1 (omega (arith, p.ends)) p.name_len in
        let (s4, r0, h4) = reads (c + 4 + 2 + 1) 1 s3 _ is h3 in0 (omega (arith, p.ends)) p.kind in
        let (s5, rn, h5) =
          reads (c + 4 + 2 + 1 + 1) n s4 _ is h4 inn (omega (arith, p.ends)) p.name in
        let few : length content ≤ 12 * 1024 = is.few in
        let (k, step) = steps s5 n (length e.pad) h5.opened (omega (arith, h5.at, p.ends, few)) in
        let number = stored_over-le_encode 4 de.d_ino e.number (omega (arith, entry.small)) in
        let start =
          headed s s1 s2 s3 s4 de _ _ _ _ r4 r2 r1 r0 (rw number entry.numbered)
            (rw number entry.small) in
        let len = le_decode-le_encode 2 (8 + n + length e.pad) (omega (arith, entry.fits)) in
        let name_len = le_decode-le_encode 1 n (omega (arith, entry.short)) in
        let finish = names s4 s5 (record de { d_ino = e.number }) n (length e.pad) k _ rn step in
        let there : c + 4 + 2 + 1 + 1 + n + length e.pad ≡ c + (8 + n + length e.pad) =
          omega arith in
        (
          record s5 { file = record s5.file { cursor = length e.pad + s5.file.cursor } },
          rw (number, len, name_len) at start ∙ finish,
          moved_on (c + 4 + 2 + 1 + 1 + n) (c + (8 + n + length e.pad)) (length e.pad) s5 h5 there,
        )
