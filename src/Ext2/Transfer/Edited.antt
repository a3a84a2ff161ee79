-- ===== src/Ext2/Transfer/Edited.antt =====
-- Writes one after another into the same sector of a file open for writing, on a volume of
-- 1024-byte blocks: each but the first writes the buffer back, and loads what it wrote.
use embext.Base.{ℕ, ◌+◌, ◌*◌, ◌/◌, ◌%◌, ◌<◌, ◌≤◌, ◌≡◌, ◌≢◌, arith, some, refl, ap, ◌∙◌}
use embext.Base.{false, ltb, List, length, take, overlay}
use embext.Base.{pos, length-overlay, length-take, le→leb}
use embext.Driver.{BlockDriver, ok}
use embext.Ext2.State.{Fs}
use embext.Ext2.Buffer.{lba_of, buffer_sector}
use embext.Ext2.Buffer.Loaded.{stored, load_sector, store-ready}
use embext.Ext2.Seek.{file}
use embext.Ext2.Transfer.{ext2_write}
use embext.Ext2.Transfer.Selected.{IsAtDirect, under_cursor}
use embext.Ext2.Transfer.Written.{rewritten, stamped, ext2_write-sector, ext2_write-dirty}
use embext.Ext2.Transfer.Since.{writes, no_append, marked_writer, IsSector, IsSince, IsEdited}

module _ ⦃drv : BlockDriver⦄ where
  half : (c : ℕ) → c % 1024 / 512 ≡ c / 512 % 2 * 512 / 512
  half c = omega arith

  -- The sector under the cursor.
  same_sector :
      (s : Fs drv.Device) (b i : ℕ)
      → s.file.cursor / 512 ≡ i
      → lba_of s.volume.context b (s.file.cursor % 1024) ≡ lba_of s.volume.context b (i % 2 * 512)
  same_sector s b i at = rw (← at, half s.file.cursor) refl

  abbrev behind : Fs drv.Device → ℕ → ℕ → List ℕ → List ℕ → Fs drv.Device
  behind s b count sector x = stamped (rewritten (under_cursor s b sector) x count)

  behind-IsEdited :
      (start s : Fs drv.Device) (i b c count : ℕ) (sector x : List ℕ)
      → IsSince start c s
      → s.file.cursor / 512 ≡ i
      → s.file.cursor + count ≤ s.file.inode.i_size
      → length x ≡ 512
      → IsEdited start i b c x (behind s b count sector x)
  behind-IsEdited start s i b c count sector x h at inside sized =
      let same : ltb s.file.inode.i_size (s.file.cursor + count) ≡ false = ground (arith, inside) in
      rw same (record {
        since = record {
          context = h.context;
          blocks = h.blocks;
          size = h.size;
          volume = h.volume;
          other = h.other;
          opened = h.opened;
          writer = marked_writer s.file.flags h.writer;
          ready = h.ready;
        };
        dirty = omega arith;
        lba = same_sector s b i at ∙ ap (λ k. lba_of k b (i % 2 * 512)) h.context;
        holds = refl;
        sized = sized;
      })

  advanced :
      (s : Fs drv.Device) (b count : ℕ) (sector x : List ℕ)
      → s.file.cursor + count ≤ s.file.inode.i_size
      → (behind s b count sector x).file.cursor ≡ s.file.cursor + count
  advanced s b count sector x inside =
      let same : ltb s.file.inode.i_size (s.file.cursor + count) ≡ false = ground (arith, inside) in
      rw same refl

  put_sized :
      (sector source : List ℕ) (offset count : ℕ)
      → length sector ≡ 512
      → count ≤ length source
      → offset + count ≤ 512
      → length (overlay sector offset (take count source)) ≡ 512
  put_sized sector source offset count sized whole fits =
      let taken : length (take count source) ≡ count =
        ground (arith, length-take count source, whole) in
      length-overlay sector offset (take count source) (omega (arith, taken)) ∙ sized

  -- The first write, through a clean buffer.
  pub first_write :
      (start s : Fs drv.Device) (i b c count : ℕ) (source sector : List ℕ)
      → IsSince start c s
      → IsAtDirect s b sector
      → s.file.cursor / 512 ≡ i
      → 0 < count
      → count ≤ length source
      → s.file.cursor % 512 + count ≤ 512
      → s.file.cursor + count ≤ s.file.inode.i_size
      → (s' : Fs drv.Device) × (ext2_write file source count s ≡ some (pos count, s'))
        × IsEdited start i b c (overlay sector (s.file.cursor % 512) (take count source)) s'
        × (s'.file.cursor ≡ s.file.cursor + count)
  first_write start s i b c count source sector h is at some_left whole fits inside = (
    _,
    ext2_write-sector s b count source sector is (writes s.file.flags h.writer)
          (no_append s.file.flags h.writer) some_left whole
        ∙ rw (le→leb (s.file.cursor % 512 + count) 512 fits) refl,
    behind-IsEdited start s i b c count sector _ h at inside
        (put_sized sector source (s.file.cursor % 512) count is.sized whole fits),
    advanced s b count sector _ inside,
  )

  -- The sector that a write-back puts where the next load finds it.
  own_sector :
      (start s : Fs drv.Device) (i b c : ℕ) (bytes : List ℕ)
      → IsEdited start i b c bytes s
      → buffer_sector s.file s.volume.context ≡ load_sector start b (i % 2 * 512)
  own_sector start s i b c bytes h = rw (h.lba, h.since.context) refl

  stored-IsAtDirect :
      (start s : Fs drv.Device) (d : drv.Device) (i b c : ℕ) (bytes : List ℕ)
      → IsSector start i b
      → IsEdited start i b c bytes s
      → s.file.cursor / 512 ≡ i
      → drv.block_read (buffer_sector s.file s.volume.context) d ≡ some (ok s.file.buffer.buffer)
      → IsAtDirect (stored s d) b bytes
  stored-IsAtDirect start s d i b c bytes place h at written = record {
    opened = h.since.opened;
    small_blocks = rw h.since.context place.small_blocks;
    pointers = rw h.since.blocks place.pointers;
    below = omega (arith, place.below, at);
    pointer =
        let e : s.file.cursor / 1024 ≡ i / 2 = omega (arith, at) in
        rw (e, h.since.blocks) place.pointer;
    allocated = place.allocated;
    clean = refl;
    read =
        let e : load_sector s b (s.file.cursor % 1024) ≡ buffer_sector s.file s.volume.context =
          rw (same_sector s b i at, h.lba, h.since.context) refl in
        rw (e, ← h.holds) written;
    sized = h.sized;
  }

  -- The next, through the buffer that the last one left.
  pub next_write :
      (start s : Fs drv.Device) (i b c count : ℕ) (source bytes : List ℕ)
      → IsSector start i b
      → c < drv.volume_size start.volume.device
      → c ≢ load_sector start b (i % 2 * 512)
      → IsEdited start i b c bytes s
      → s.file.cursor / 512 ≡ i
      → 0 < count
      → count ≤ length source
      → s.file.cursor % 512 + count ≤ 512
      → s.file.cursor + count ≤ start.file.inode.i_size
      → (s' : Fs drv.Device) × (ext2_write file source count s ≡ some (pos count, s'))
        × IsEdited start i b c (overlay bytes (s.file.cursor % 512) (take count source)) s'
        × (s'.file.cursor ≡ s.file.cursor + count)
  next_write start s i b c count source bytes place c_in c_not h at some_left whole fits inside =
      let own = own_sector start s i b c bytes h in
      let (d, store, wrote) =
        store-ready s h.since.ready (rw (own, h.since.volume) place.inside) (rw h.holds h.sized) in
      let is = stored-IsAtDirect start s d i b c bytes place h at wrote.written in
      let since : IsSince start c (stored s d) = record {
        context = h.since.context;
        blocks = h.since.blocks;
        size = h.since.size;
        volume = wrote.same_size ∙ h.since.volume;
        other = wrote.others c (rw h.since.volume c_in) (rw own c_not) ∙ h.since.other;
        opened = h.since.opened;
        writer = h.since.writer;
        ready = wrote.ready;
      } in
      (
        _,
        ext2_write-dirty s d b count source bytes h.dirty store is
            (writes s.file.flags h.since.writer) (no_append s.file.flags h.since.writer) some_left
            whole fits,
        behind-IsEdited start (stored s d) i b c count bytes _ since at (rw h.since.size inside)
            (put_sized bytes source (s.file.cursor % 512) count h.sized whole fits),
        advanced (stored s d) b count bytes _ (rw h.since.size inside),
      )
