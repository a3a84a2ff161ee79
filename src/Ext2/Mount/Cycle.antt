-- ===== src/Ext2/Mount/Cycle.antt =====
-- `ext2_mount` and `ext2_umount`: the superblock on the device.
use embext.Base.{ℕ, ◌<◌, ◌≡◌, ◌≢◌, sym, arith, some, List}
use embext.Base.{take, get_elem?}
use embext.Base.{take-append_left, replicate, get_elem?-some}
use embext.Driver.{BlockDriver, ok}
use embext.Ext2.Layout.{Superblock, read_superblock, superblock_bytes}
use embext.Ext2.Layout.RoundTrip.{
  IsSuperblock, read_superblock-superblock_bytes, length-superblock_bytes,
}
use embext.Ext2.State.{Volume, Context, ext2_valid_fs, ext2_block_size}
use embext.Ext2.Group.{copy_sector}
use embext.Ext2.Group.Mounted.{IsMounted, numbered, numbered-IsSuperblock}
use embext.Ext2.Group.Copy.{image}
use embext.Ext2.Group.Flush.{AreApart, ext2_flush_superblock-Flushed}
use embext.Ext2.Mount.{mark_mounted, ext2_umount}

-- What mounting reads of a sector that holds a superblock.
pub read_superblock-image :
    (sb : Superblock) → IsSuperblock sb → read_superblock (take 264 (image sb)) ≡ sb
unfolding image
read_superblock-image sb fits =
    rw
      (take-append_left 264 (superblock_bytes sb) (replicate 248 0)
        (sym (length-superblock_bytes sb fits)))
      (read_superblock-superblock_bytes sb fits)

module _ ⦃drv : BlockDriver⦄ where
  abbrev pub with_superblock : Volume drv.Device → Superblock → Volume drv.Device
  with_superblock v sb = record v { context = record v.context { superblock = sb } }

  abbrev pub clean : Superblock → Superblock
  clean sb = record sb { s_state = ext2_valid_fs }

  -- The three fields that mounting and unmounting change.
  abbrev marked : ℕ → ℕ → ℕ → Superblock → Superblock
  marked mtime mnt_count state sb = record sb {
    s_mtime = mtime;
    s_mnt_count = mnt_count;
    s_state = state;
  }

  marked-IsMounted :
      (v : Volume drv.Device) (mtime mnt_count state : ℕ)
      → IsSuperblock (marked mtime mnt_count state v.context.superblock)
      → IsMounted v
      → IsMounted (with_superblock v (marked mtime mnt_count state v.context.superblock))
  unfolding ext2_block_size
  marked-IsMounted v mtime mnt_count state fits is = record {
    ready = is.ready;
    sysbuf_sized = is.sysbuf_sized;
    superblock_fits = fits;
    copies_listed = is.copies_listed;
    primary_inside = is.primary_inside;
    tables_inside = is.tables_inside;
    copies_inside = is.copies_inside;
  }

  clean-IsSuperblock : (sb : Superblock) → IsSuperblock sb → IsSuperblock (clean sb)
  clean-IsSuperblock sb is = omega arith

  listed :
      (v : Volume drv.Device) (k b : ℕ)
      → IsMounted v
      → get_elem? v.context.superblock_blocks k ≡ some b
      → k < v.context.num_superblocks
  listed v k b is at =
      omega (arith, is.copies_listed, get_elem?-some v.context.superblock_blocks k b at)

  -- What `ext2_umount` leaves of a volume on its device.
  pub record LeftClean (v : Volume drv.Device) (d : drv.Device) : Type 0 where
    pub ready : drv.IsReady d
    pub same_size : drv.volume_size d ≡ drv.volume_size v.device
    pub copies :
        (k b : ℕ)
        → get_elem? v.context.superblock_blocks k ≡ some b
        → (sector : List ℕ) × (drv.block_read (copy_sector v.context b) d ≡ some (ok sector))
          × (read_superblock (take 264 sector) ≡ numbered b (clean v.context.superblock))
    pub others :
        (sector : ℕ)
        → sector < drv.volume_size v.device
        → ((k b : ℕ)
            → get_elem? v.context.superblock_blocks k ≡ some b
            → sector ≢ copy_sector v.context b)
        → drv.block_read sector d ≡ drv.block_read sector v.device

  -- Unmounting a mounted volume, no two of whose superblock copies share a sector, succeeds. Every
  -- copy on the device then reads as the superblock, marked clean, and no other sector has changed.
  pub ext2_umount-LeftClean :
      (v : Volume drv.Device)
      → IsMounted v
      → AreApart v
      → (d : drv.Device) × (ext2_umount v ≡ some d) × LeftClean v d
  unfolding ext2_umount
  ext2_umount-LeftClean v is apart =
      let sb = v.context.superblock in
      let w = with_superblock v (clean sb) in
      let fits = clean-IsSuperblock sb is.superblock_fits in
      let mounted : IsMounted w =
        marked-IsMounted v sb.s_mtime sb.s_mnt_count ext2_valid_fs fits is in
      let (v', ran, flushed) =
        ext2_flush_superblock-Flushed w mounted (record { apart = apart.apart }) in
      (
        v'.device,
        rw ran,
        record {
          ready = flushed.mounted.ready;
          same_size = flushed.same_size;
          copies = λ k b at. (
            image (numbered b (clean sb)),
            flushed.held k b (omega arith) (listed v k b is at) at,
            read_superblock-image (numbered b (clean sb)) (numbered-IsSuperblock b (clean sb) fits),
          );
          others = λ sector inside away. flushed.others sector inside (λ k b _ _ at. away k b at);
        },
      )

  -- The volume that mounting flushes: the context built from the sector read, marked as in use.
  abbrev pub mounting : ℕ → Context → drv.Device → Volume drv.Device
  mounting now context d = record {
    device = d;
    context = record context { superblock = mark_mounted now context.superblock };
  }
