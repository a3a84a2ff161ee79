-- ===== src/Ext2/Group/Flush.antt =====
-- The loop of `ext2_flush_superblock` over the copies.
use native.Mathlib.Decide.{ℕ_discrete}
use embext.Base.{ℕ, zero, suc, ◌+◌, ◌≤◌, ◌<◌, ◌≡◌, ◌≢◌, refl, ◌∙◌, arith, some}
use embext.Base.{get_elem?-lt, length-replicate, drop, replicate, get_elem?}
use embext.Driver.{BlockDriver, ok, Wrote, block_size}
use embext.Ext2.Monad.{◌>>=◌}
use embext.Ext2.State.{Volume, ext2_block_size}
use embext.Ext2.Group.{copy_sector, flush_copy, flush_copies, ext2_flush_superblock}
use embext.Ext2.Group.Mounted.{IsMounted, numbered, numbered-IsSuperblock}
use embext.Ext2.Group.Copy.{image, drop-image, flushed_to, flush_copy-Wrote, flushed_to-IsMounted}

module _ ⦃drv : BlockDriver⦄ where
  -- No two copies share a sector.
  pub record AreApart (v : Volume drv.Device) : Type 0 where
    pub apart :
        (i j b c : ℕ)
        → i ≢ j
        → get_elem? v.context.superblock_blocks i ≡ some b
        → get_elem? v.context.superblock_blocks j ≡ some c
        → copy_sector v.context b ≢ copy_sector v.context c

  -- The writes of the copies from `i` up to `j`, which turned `v` into `v'`.
  pub record Flushed (i j : ℕ) (v v' : Volume drv.Device) : Type 0 where
    pub mounted : IsMounted v'
    pub held :
        (k b : ℕ)
        → i ≤ k
        → k < j
        → get_elem? v.context.superblock_blocks k ≡ some b
        → drv.block_read (copy_sector v.context b) v'.device
          ≡ some (ok (image (numbered b v.context.superblock)))
    pub others :
        (sector : ℕ)
        → sector < drv.volume_size v.device
        → ((k b : ℕ)
            → i ≤ k
            → k < j
            → get_elem? v.context.superblock_blocks k ≡ some b
            → sector ≢ copy_sector v.context b)
        → drv.block_read sector v'.device ≡ drv.block_read sector v.device
    pub same_size : drv.volume_size v'.device ≡ drv.volume_size v.device

  continues :
      (left i : ℕ) (v v1 v' : Volume drv.Device)
      → flush_copy i v ≡ some (tt, v1)
      → flush_copies left (i + 1) v1 ≡ some (tt, v')
      → flush_copies (suc left) i v ≡ some (tt, v')
  unfolding flush_copies ◌>>=◌
  continues left i v v1 v' ran rest = ground (arith, ran, rest)

  -- One write, and the rest of the loop behind it.
  Flushed-cons :
      (i j b : ℕ) (d : drv.Device) (v v' : Volume drv.Device)
      → i < j
      → IsMounted v
      → AreApart v
      → get_elem? v.context.superblock_blocks i ≡ some b
      → Wrote drv.IsReady drv.volume_size drv.read_only drv.block_read
          (copy_sector v.context b)
          (image (numbered b v.context.superblock))
          v.device
          d
      → Flushed (i + 1) j (flushed_to v b d) v'
      → Flushed i j v v'
  Flushed-cons i j b d v v' ij is apart at wrote rest = record {
    mounted = rest.mounted;
    held = λ k c ik kj at_k. elim (ℕ_discrete k i) [
      | yes same ↦ let e : c ≡ b = cc (rw same at at_k) in rw e (kept ∙ wrote.written)
      | no other ↦ rest.held k c (omega arith) kj at_k
    ];
    others = λ sector inside away.
        rest.others sector (rw wrote.same_size inside)
          (λ k c ik kj at_k. away k c (omega arith) kj at_k)
        ∙ wrote.others sector inside (away i b (omega arith) ij at);
    same_size = rest.same_size ∙ wrote.same_size;
  }
    where
      -- The later writes spare the sector of this copy.
      kept :
          drv.block_read (copy_sector v.context b) v'.device
          ≡ drv.block_read (copy_sector v.context b) d
      kept =
          rest.others (copy_sector v.context b) (rw wrote.same_size (is.copies_inside i b at))
            (λ k c ik kj at_k. apart.apart i k b c (omega arith) at at_k)

  flush_copies-Flushed :
      (left i j : ℕ) (v : Volume drv.Device)
      → i + left ≡ j
      → j ≤ v.context.num_superblocks
      → IsMounted v
      → AreApart v
      → drop 264 v.context.sysbuf ≡ replicate 248 0
      → (v' : Volume drv.Device) × (flush_copies left i v ≡ some (tt, v')) × Flushed i j v v'
  unfolding flush_copies
  flush_copies-Flushed zero i j v e le is apart zeros = (
    v,
    unfold ◌>>=◌ in refl,
    record {
      mounted = is;
      held = λ k b ik kj at. absurd (omega arith);
      others = λ sector inside away. refl;
      same_size = refl;
    },
  )
  flush_copies-Flushed (suc left) i j v e le is apart zeros =
      let (b, at) = get_elem?-lt v.context.superblock_blocks i (omega (arith, is.copies_listed)) in
      let (d, ran, wrote) = flush_copy-Wrote v i b is zeros at in
      let v1 = flushed_to v b d in
      let mounted = flushed_to-IsMounted v b d _ _ is wrote in
      let fits = numbered-IsSuperblock b v.context.superblock is.superblock_fits in
      let (v', rest, flushed) =
        flush_copies-Flushed left (i + 1) j v1 (omega arith) le mounted
          (record { apart = apart.apart }) (drop-image (numbered b v.context.superblock) fits) in
      (
        v',
        continues left i v v1 v' ran rest,
        Flushed-cons i j b d v v' (omega arith) is apart at wrote flushed,
      )

  -- Behind the `memset`.
  abbrev cleared : Volume drv.Device → Volume drv.Device
  cleared v = record v { context = record v.context { sysbuf = replicate block_size 0 } }

  cleared-IsMounted : (v : Volume drv.Device) → IsMounted v → IsMounted (cleared v)
  unfolding ext2_block_size
  cleared-IsMounted v is = record {
    ready = is.ready;
    sysbuf_sized = length-replicate {A = ℕ} 512 0;
    superblock_fits = is.superblock_fits;
    copies_listed = is.copies_listed;
    primary_inside = is.primary_inside;
    tables_inside = is.tables_inside;
    copies_inside = is.copies_inside;
  }

  -- On a mounted volume whose copies lie on the device, no two in one sector, the flush succeeds.
  -- Every copy then reads back as the superblock, numbered with the block of the copy, and zeros;
  -- every other sector of the device is unchanged, and the volume is still well formed.
  pub ext2_flush_superblock-Flushed :
      (v : Volume drv.Device)
      → IsMounted v
      → AreApart v
      → (v' : Volume drv.Device) × (ext2_flush_superblock v ≡ some (ok tt, v'))
        × Flushed 0 v.context.num_superblocks v v'
  unfolding ext2_flush_superblock ◌>>=◌
  ext2_flush_superblock-Flushed v is apart =
      let (v', ran, done) =
        flush_copies-Flushed v.context.num_superblocks 0 v.context.num_superblocks (cleared v)
          (omega arith) (omega arith) (cleared-IsMounted v is) (record { apart = apart.apart })
          refl in
      (
        v',
        ground (arith, ran),
        record {
          mounted = done.mounted;
          held = done.held;
          others = done.others;
          same_size = done.same_size;
        },
      )
