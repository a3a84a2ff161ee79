-- ===== src/Ext2/Append/Entry.antt =====
-- An entry appended in the last block of a directory, where the last entry leaves room for it.
use embext.Base.{ℕ, ◌+◌, ◌*◌, ◌/◌, ◌%◌, ◌<◌, ◌≤◌, ◌≡◌, ◌≢◌, arith, some, refl}
use embext.Base.{List, ◌++◌, ◌∙◌, true, length, pos}
use embext.Base.{sym, take_of_length_le}
use embext.Driver.{BlockDriver, ok}
use embext.Ext2.State.{Fs, embext_magic}
use embext.Ext2.Buffer.Loaded.{load_sector}
use embext.Ext2.Seek.{file}
use embext.Ext2.Seek.Target.{moved}
use embext.Ext2.Directory.{DirHeader, dir_header_bytes}
use embext.Ext2.Transfer.{ext2_write}
use embext.Ext2.Transfer.Selected.{IsAtDirect}
use embext.Ext2.Transfer.Since.{is_writer, IsSector, IsSince, IsEdited, moved-IsEdited}
use embext.Ext2.Transfer.Edited.{first_write, next_write}
use embext.Ext2.Append.{LastEntry, entry_length, append_in_block}
use embext.Ext2.Append.Sector.{
  length-dir_header_bytes, take-dir_header_bytes, entries, cut, over, over_name, length-entries,
}
use embext.Ext2.Append.Calls.{cut_header, new_header, calls}

module _ ⦃drv : BlockDriver⦄ where
  sized_sum : {x y : ℕ} → x ≡ 512 → x ≡ y → y ≡ 512
  sized_sum sized sum = sym sum ∙ sized

  moved-IsSince_self :
      (s : Fs drv.Device) (c n : ℕ)
      → s.file.magic ≡ embext_magic
      → is_writer s.file.flags ≡ true
      → drv.IsReady s.volume.device
      → IsSince s c (moved n s)
  moved-IsSince_self s c n opened writer ready = record {
    context = refl;
    blocks = refl;
    size = refl;
    volume = refl;
    other = refl;
    opened = opened;
    writer = writer;
    ready = ready;
  }

  moved-IsAtDirect :
      (s : Fs drv.Device) (b at : ℕ) (bytes : List ℕ)
      → IsSector s (at / 512) b
      → s.file.magic ≡ embext_magic
      → s.file.buffer.dirty ≡ 0
      → drv.block_read (load_sector s b (at / 512 % 2 * 512)) s.volume.device ≡ some (ok bytes)
      → length bytes ≡ 512
      → IsAtDirect (moved at s) b bytes
  moved-IsAtDirect s b at bytes place opened clean read sized = record {
    opened = opened;
    small_blocks = place.small_blocks;
    pointers = place.pointers;
    below = omega (arith, place.below);
    pointer = let e : at / 1024 ≡ at / 512 / 2 = omega arith in rw e place.pointer;
    allocated = place.allocated;
    clean = clean;
    read = let e : at % 1024 / 512 ≡ at / 512 % 2 * 512 / 512 = omega arith in rw e read;
    sized = sized;
  }

module _ ⦃drv : BlockDriver⦄ (s : Fs drv.Device) (b c inode last_block : ℕ) (filename : List ℕ)
    (last : LastEntry) (before kept old_header old_name after : List ℕ)
    (opened : s.file.magic ≡ embext_magic) (writer : is_writer s.file.flags ≡ true)
    (clean : s.file.buffer.dirty ≡ 0) (ready : drv.IsReady s.volume.device)
    (place : IsSector s ((last.offset + last_block) / 512) b)
    (read : drv.block_read
        (load_sector s b ((last.offset + last_block) / 512 % 2 * 512))
        s.volume.device
      ≡ some (ok (entries before last.header kept (old_header ++ (old_name ++ after)))))
    (sized : length (entries before last.header kept (old_header ++ (old_name ++ after))) ≡ 512)
    (front : length before ≡ (last.offset + last_block) % 512)
    (least_kept : 8 + length kept ≡ entry_length last.header.name_len)
    (old8 : length old_header ≡ 8) (old_n : length old_name ≡ length filename)
    (some_name : 0 < length filename) (short : length filename < 256)
    (fits : last.offset + entry_length last.header.name_len ≤ 1024)
    (in_size : last.offset + last_block + entry_length last.header.name_len + 8 + length filename
      ≤ s.file.inode.i_size)
    (c_in : c < drv.volume_size s.volume.device)
    (c_not : c ≢ load_sector s b ((last.offset + last_block) / 512 % 2 * 512)) where
  abbrev least : ℕ
  least = entry_length last.header.name_len

  abbrev at : ℕ
  at = last.offset + last_block

  abbrev next : ℕ
  next = last.offset + least + last_block

  abbrev header : DirHeader
  header = new_header inode filename 1024 last

  abbrev stage : List ℕ → List ℕ → List ℕ
  stage new name = entries before (cut_header last) kept (new ++ (name ++ after))

  room : at % 512 + least + 8 + length filename ≤ 512
  room =
      let whole =
        sized_sum sized (length-entries before kept old_header old_name after last.header) in
      omega (arith, whole, front, least_kept, old8, old_n)

  write_cut :
      (s1 : Fs drv.Device) × (ext2_write file (dir_header_bytes (cut_header last)) 8 (moved at s)
        ≡ some (pos 8, s1))
      × IsEdited s (at / 512) b c (stage old_header old_name) s1
  write_cut =
      let (s1, w1, edit1, c1) =
        first_write s (moved at s) (at / 512) b c 8 (dir_header_bytes (cut_header last)) _
          (moved-IsSince_self s c at opened writer ready)
          (moved-IsAtDirect s b at _ place opened clean read sized) refl (omega arith)
          (omega (arith, length-dir_header_bytes (cut_header last))) (omega (arith, room))
          (omega (arith, in_size)) in
      (
        s1,
        w1,
        rw
            (cut before kept (old_header ++ (old_name ++ after)) last.header (cut_header last)
              (at % 512) (sym front))
            at edit1,
      )

  write_new :
      (s1 : Fs drv.Device)
      → IsEdited s (at / 512) b c (stage old_header old_name) s1
      → (s2 : Fs drv.Device) × (ext2_write file (dir_header_bytes header) 8 (moved next s1)
          ≡ some (pos 8, s2))
        × IsEdited s (at / 512) b c (stage (dir_header_bytes header) old_name) s2
        × (s2.file.cursor ≡ next + 8)
  write_new s1 e1 =
      let (s2, w2, edit2, c2) =
        next_write s (moved next s1) (at / 512) b c 8 (dir_header_bytes header) _ place c_in c_not
          (moved-IsEdited s s1 (at / 512) b c next _ e1) (omega (arith, room)) (omega arith)
          (omega (arith, length-dir_header_bytes header)) (omega (arith, room))
          (omega (arith, in_size)) in
      (
        s2,
        w2,
        rw
            (
              take-dir_header_bytes header,
              over before kept old_header (old_name ++ after) (dir_header_bytes header)
                  (cut_header last) (next % 512) (omega (arith, room, front, least_kept))
                  (old8 ∙ sym (length-dir_header_bytes header)),
            )
            at edit2,
        c2,
      )

  write_name :
      (s2 : Fs drv.Device)
      → IsEdited s (at / 512) b c (stage (dir_header_bytes header) old_name) s2
      → s2.file.cursor ≡ next + 8
      → (s3 : Fs drv.Device) × (ext2_write file filename (length filename) s2
          ≡ some (pos (length filename), s3))
        × IsEdited s (at / 512) b c (stage (dir_header_bytes header) filename) s3
  write_name s2 e2 c2 =
      let (s3, w3, edit3, c3) =
        next_write s s2 (at / 512) b c (length filename) filename _ place c_in c_not e2
          (omega (arith, c2, room)) some_name (omega arith) (omega (arith, c2, room))
          (omega (arith, c2, in_size)) in
      (
        s3,
        w3,
        rw
            (
              take_of_length_le (length filename) filename (omega arith),
              over_name before kept old_name after filename (cut_header last) header
                  (s2.file.cursor % 512) (omega (arith, c2, room, front, least_kept)) old_n,
            )
            at edit3,
      )

  -- On a volume of 1024-byte blocks, with a directory open for writing, its buffer clean, on a
  -- device that is ready: sector `at / 512` of the directory, in one of its first twelve blocks,
  -- is `before`, the last entry (its header, at byte `at`, and the `kept` bytes behind it, up to
  -- its least length), as many bytes as the new header and the new name have, and `after`. The
  -- name has 1 to 255 bytes; the last entry, cut, ends in the block, and the new name in the
  -- directory's size. Then the entry is appended: behind the call the buffer is modified and holds that sector with the
  -- length of the last entry cut to the least, and behind it the new header, of the rest of the
  -- block, and the name; the bytes before, between and after are what they were. The size and
  -- the pointers of the directory, and any other sector `c` of the device, do not change.
  pub append_in_block-IsEdited :
      (s' : Fs drv.Device) × (append_in_block inode filename last_block 1024 last s ≡ some (tt, s'))
      × IsEdited s (at / 512) b c (stage (dir_header_bytes header) filename) s'
  append_in_block-IsEdited =
      let (s1, w1, e1) = write_cut in
      let (s2, w2, e2, c2) = write_new s1 e1 in
      let (s3, w3, e3) = write_name s2 e2 c2 in
      (
        s3,
        calls s s1 s2 s3 inode filename last_block 1024 last opened e1.since.opened fits
            (omega arith) short w1 w2 w3,
        e3,
      )
