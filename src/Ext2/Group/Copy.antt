-- ===== src/Ext2/Group/Copy.antt =====
-- The write of one copy of the superblock in `ext2_flush_superblock`.
use embext.Base.{ℕ, ◌<◌, ◌≡◌, sym, arith, some, List, ◌++◌}
use embext.Base.{
  drop-append_left, length-append, length, drop, replicate, get_elem?, splice, overlay,
  splice_inside,
}
use embext.Driver.{BlockDriver, Wrote}
use embext.Ext2.Layout.{Superblock, superblock_bytes}
use embext.Ext2.Layout.RoundTrip.{IsSuperblock, length-superblock_bytes}
use embext.Ext2.Monad.{◌>>=◌}
use embext.Ext2.State.{Volume, ext2_block_size}
use embext.Ext2.Sector.{write_sysbuf}
use embext.Ext2.Group.{copy_sector, flush_copy}
use embext.Ext2.Group.Mounted.{IsMounted, numbered, numbered-IsSuperblock}

-- The sector of a superblock: its 264 bytes, and zeros.
unfoldable pub image : Superblock → List ℕ
image sb = superblock_bytes sb ++ replicate 248 0

pub length-image : (sb : Superblock) → IsSuperblock sb → length (image sb) ≡ 512
unfolding image
length-image sb fits =
    omega (
      arith,
      length-append (superblock_bytes sb) (replicate 248 0),
      length-superblock_bytes sb fits,
    )

pub drop-image : (sb : Superblock) → IsSuperblock sb → drop 264 (image sb) ≡ replicate 248 0
unfolding image
drop-image sb fits =
    drop-append_left 264 (superblock_bytes sb) (replicate 248 0)
      (sym (length-superblock_bytes sb fits))

-- Copying the superblock over the start of a cleared sector.
splice-image :
    (sysbuf : List ℕ) (sb : Superblock)
    → IsSuperblock sb
    → length sysbuf ≡ 512
    → drop 264 sysbuf ≡ replicate 248 0
    → splice sysbuf 0 (superblock_bytes sb) ≡ some (image sb)
unfolding image overlay
splice-image sysbuf sb fits sized zeros = rw (
  splice_inside sysbuf 0 (superblock_bytes sb) (omega (arith, length-superblock_bytes sb fits)),
  length-superblock_bytes sb fits,
  zeros,
)

module _ ⦃drv : BlockDriver⦄ where
  -- The volume behind the write of the copy in block `b`, on the device that it left.
  abbrev pub flushed_to : Volume drv.Device → ℕ → drv.Device → Volume drv.Device
  flushed_to v b d = record {
    device = d;
    context = record v.context {
      superblock = numbered b v.context.superblock;
      sysbuf = image (numbered b v.context.superblock);
    };
  }

  -- A write of 512 bytes in `sysbuf` to a sector of the device.
  pub write_sysbuf-Wrote :
      (sector : ℕ) (v : Volume drv.Device)
      → drv.IsReady v.device
      → sector < drv.volume_size v.device
      → length v.context.sysbuf ≡ 512
      → (d : drv.Device) × (write_sysbuf sector v ≡ some (tt, record v { device = d }))
        × Wrote drv.IsReady drv.volume_size drv.read_only drv.block_read sector v.context.sysbuf
            v.device d
  unfolding write_sysbuf
  write_sysbuf-Wrote sector v ready inside sized =
      let (d, e, wrote) = drv.write_inside v.device sector v.context.sysbuf ready inside sized in
      (d, rw (e, write_sysbuf), wrote)

  pub flush_copy-Wrote :
      (v : Volume drv.Device) (i b : ℕ)
      → IsMounted v
      → drop 264 v.context.sysbuf ≡ replicate 248 0
      → get_elem? v.context.superblock_blocks i ≡ some b
      → (d : drv.Device) × (flush_copy i v ≡ some (tt, flushed_to v b d))
        × Wrote drv.IsReady drv.volume_size drv.read_only drv.block_read
            (copy_sector v.context b)
            (image (numbered b v.context.superblock))
            v.device
            d
  unfolding flush_copy ◌>>=◌
  flush_copy-Wrote v i b is zeros at =
      let sb = numbered b v.context.superblock in
      let fits : IsSuperblock sb =
        numbered-IsSuperblock b v.context.superblock is.superblock_fits in
      let filled = splice-image v.context.sysbuf sb fits is.sysbuf_sized zeros in
      let w : Volume drv.Device = flushed_to v b v.device in
      let (d, e, wrote) =
        write_sysbuf-Wrote (copy_sector v.context b) w is.ready (is.copies_inside i b at)
          (length-image sb fits) in
      (d, ground (arith, at, filled, e), wrote)

  pub flushed_to-IsMounted :
      (v : Volume drv.Device) (b : ℕ) (d : drv.Device) (sector : ℕ) (bytes : List ℕ)
      → IsMounted v
      → Wrote drv.IsReady drv.volume_size drv.read_only drv.block_read sector bytes v.device d
      → IsMounted (flushed_to v b d)
  unfolding ext2_block_size
  flushed_to-IsMounted v b d sector bytes is wrote = record {
    ready = wrote.ready;
    sysbuf_sized = length-image (numbered b v.context.superblock) fits;
    superblock_fits = fits;
    copies_listed = is.copies_listed;
    primary_inside = λ g lt. rw wrote.same_size (is.primary_inside g lt);
    tables_inside = λ i c g at lt. rw wrote.same_size (is.tables_inside i c g at lt);
    copies_inside = λ i c at. rw wrote.same_size (is.copies_inside i c at);
  }
    where
      fits : IsSuperblock (numbered b v.context.superblock)
      fits = numbered-IsSuperblock b v.context.superblock is.superblock_fits
