-- ===== src/Ext2/Directory/Content.antt =====
-- Reads from a file whose bytes are known, in its first twelve blocks.
use embext.Base.{ℕ, zero, suc, ◌+◌, ◌-◌, ◌*◌, ◌/◌, ◌%◌, ◌<◌, ◌≤◌, ◌≡◌, ◌≢◌, refl, ap}
use embext.Base.{arith, some, List, [], ◌∷◌, length, take, drop, get_elem?, pos, sym}
use embext.Base.{drop-drop, le→leb, take-nil}
use embext.Driver.{BlockDriver, ok}
use embext.Ext2.Monad.{◌>>=◌}
use embext.Ext2.State.{Fs, Volume, u32, embext_magic}
use embext.Ext2.Buffer.{lba_of}
use embext.Ext2.Seek.{file}
use embext.Ext2.Transfer.{read_loop, read_done, ext2_read}
use embext.Ext2.Transfer.Selected.{IsAtDirect, under_cursor}
use embext.Ext2.Transfer.Direct.{accessed, ext2_read-sector}

module _ {ℓ} {A : Type ℓ} where
  take-take : (n m : ℕ) (xs : List A) → n ≤ m → take n (take m xs) ≡ take n xs
  take-take zero m xs le = refl
  take-take (suc n) zero xs le = absurd (omega arith)
  take-take (suc n) (suc m) [] le = refl
  take-take (suc n) (suc m) (x ∷ xs) le = ap (λ ys. x ∷ ys) (take-take n m xs (omega arith))

  drop-take : (j i : ℕ) (xs : List A) → j ≤ i → drop j (take i xs) ≡ take (i - j) (drop j xs)
  drop-take zero i xs le = let e : i - 0 ≡ i = omega arith in rw e refl
  drop-take (suc j) zero xs le = absurd (omega arith)
  drop-take (suc j) (suc i) [] le = sym (take-nil (suc i - suc j))
  drop-take (suc j) (suc i) (x ∷ xs) le =
      let e : suc i - suc j ≡ i - j = omega arith in rw e (drop-take j i xs (omega arith))

  -- A part of a sector of a file is a part of the file.
  part_of_sector :
      (c n : ℕ) (xs : List A)
      → c % 512 + n ≤ 512
      → take n (drop (c % 512) (take 512 (drop (c - c % 512) xs))) ≡ take n (drop c xs)
  part_of_sector c n xs le =
      let e : c - c % 512 + c % 512 ≡ c = omega arith in
      rw (
        drop-take (c % 512) 512 (drop (c - c % 512) xs) (omega arith),
        drop-drop (c - c % 512) (c % 512) xs,
        e,
        take-take n (512 - c % 512) (drop c xs) (omega arith),
      )

module _ ⦃drv : BlockDriver⦄ where
  -- The sector of a volume below byte `c` of a file that has block `b` there.
  abbrev pub sector_below : Volume drv.Device → ℕ → ℕ → ℕ
  sector_below v b c = u32 (lba_of v.context b (c % 1024) + v.context.part_start)

  -- What stands on the volume under byte `c` of a file with these pointers and bytes.
  pub record IsSectorAt (v : Volume drv.Device) (i_block content : List ℕ) (c : ℕ) : Type 0 where
    pub b : ℕ
    pub bytes : List ℕ
    pub pointer : get_elem? i_block (c / 1024) ≡ some b
    pub allocated : b ≢ 0
    pub read : drv.block_read (sector_below v b c) v.device ≡ some (ok bytes)
    pub sized : length bytes ≡ 512
    pub same : bytes ≡ take 512 (drop (c - c % 512) content)

  -- A file with these pointers has these bytes: every sector of it is on the volume.
  pub record IsContent (v : Volume drv.Device) (i_block content : List ℕ) : Type 0 where
    pub small_blocks : v.context.superblock.s_log_block_size ≡ 0
    pub pointers : length i_block ≡ 15
    pub few : length content ≤ 12 * 1024
    pub sector : (c : ℕ) → c < length content → IsSectorAt v i_block content c

  -- The state has a file of these pointers and this size open at byte `c`, with a clean buffer.
  pub record IsOpenAt (v : Volume drv.Device) (i_block : List ℕ) (size c : ℕ) (s : Fs drv.Device)
      : Type 0 where
    pub on : s.volume ≡ v
    pub opened : s.file.magic ≡ embext_magic
    pub blocks : s.file.inode.i_block ≡ i_block
    pub sized : s.file.inode.i_size ≡ size
    pub clean : s.file.buffer.dirty ≡ 0
    pub at : s.file.cursor ≡ c

  module _ {v : Volume drv.Device} {i_block content : List ℕ} where
    at_direct :
        (c : ℕ) (s : Fs drv.Device)
        → IsContent v i_block content
        → IsOpenAt v i_block (length content) c s
        → (below : c < length content) → (is : IsSectorAt v i_block content c)
        → IsAtDirect s is.b is.bytes
    at_direct c s is here below found = record {
      opened = here.opened;
      small_blocks = rw here.on is.small_blocks;
      pointers = rw here.blocks is.pointers;
      below = rw here.at (omega (arith, is.few));
      pointer = rw (here.at, here.blocks) found.pointer;
      allocated = found.allocated;
      clean = here.clean;
      read = rw (here.at, here.on) found.read;
      sized = found.sized;
    }

    -- A read within a sector returns the bytes of the file at the cursor.
    pub read_content :
        (c k : ℕ) (s : Fs drv.Device)
        → IsContent v i_block content
        → IsOpenAt v i_block (length content) c s
        → 0 < k
        → c % 512 + k ≤ 512
        → c + k ≤ length content
        → (s' : Fs drv.Device) × (ext2_read file k s
            ≡ some (record { returned = pos k; bytes = take k (drop c content) }, s'))
          × IsOpenAt v i_block (length content) (c + k) s'
    read_content c k s is here some_left inside ends =
        let below : c < length content = omega (arith, ends) in
        let found = is.sector c below in
        let direct = at_direct c s is here below found in
        let fits : s.file.cursor % 512 + k ≤ 512 = rw here.at inside in
        let part : take k (drop (s.file.cursor % 512) found.bytes) ≡ take k (drop c content) =
          rw (here.at, found.same) (part_of_sector c k content inside) in
        let e =
          ext2_read-sector s found.b k found.bytes direct some_left
            (rw (here.at, here.sized) ends) in
        (
          accessed (under_cursor s found.b found.bytes) k,
          rw (le→leb (s.file.cursor % 512 + k) 512 fits, part) at e,
          record {
            on = here.on;
            opened = here.opened;
            blocks = here.blocks;
            sized = here.sized;
            clean = here.clean;
            at = ap (λ n. n + k) here.at;
          },
        )

  -- Nothing is read at the end of a file.
  pub read_end :
      (k : ℕ) (s : Fs drv.Device)
      → s.file.magic ≡ embext_magic
      → s.file.inode.i_size ≤ s.file.cursor
      → ext2_read file k s ≡ some (record { returned = pos 0; bytes = [] }, s)
  unfolding ext2_read read_loop read_done ◌>>=◌
  read_end k s opened ended =
      let e : k + 1 ≡ suc k = omega arith in ground (arith, opened, ended, e)

  -- Nothing is read when no byte is wanted.
  pub read_none :
      (s : Fs drv.Device)
      → s.file.magic ≡ embext_magic
      → ext2_read file 0 s ≡ some (record { returned = pos 0; bytes = [] }, s)
  unfolding ext2_read read_loop read_done ◌>>=◌
  read_none s opened = ground (arith, opened)
