-- ===== src/Ext2/Group/Read.antt =====
-- What `ext2_get_bg_descriptor` finds, whatever `sysbuf` held before.
use embext.Base.{ℕ, ◌<◌, ◌≡◌, arith, some, List, [], length, take, drop}
use embext.Base.{slice_inside}
use embext.Driver.{Wrote, BlockDriver, ok}
use embext.Ext2.Layout.{BlockGroupDescriptor, read_descriptor}
use embext.Ext2.Monad.{◌>>=◌}
use embext.Ext2.State.{Volume, ext2_block_size}
use embext.Ext2.Sector.{read_sysbuf}
use embext.Ext2.Group.{ext2_get_bg_descriptor, descriptor_offset, descriptor_size}
use embext.Ext2.Group.Mounted.{IsMounted, table_sector}

-- The volume with another sector in `sysbuf`.
abbrev pub with_sysbuf : {Device : Type 0} → Volume Device → List ℕ → Volume Device
with_sysbuf v sysbuf = record v { context = record v.context { sysbuf = sysbuf } }

module _ ⦃drv : BlockDriver⦄ where
  -- The bytes of a sector of the device, empty if the sector cannot be read.
  unfoldable pub sector_bytes : drv.Device → ℕ → List ℕ
  sector_bytes d sector = elim (drv.block_read sector d) [ some (ok bytes) ↦ bytes | _ ↦ [] ]

  -- The sector of the table of the first superblock with the descriptor of a group, and the
  -- descriptor in it.
  abbrev pub sector_of : Volume drv.Device → ℕ → List ℕ
  sector_of v g = sector_bytes v.device (table_sector v.context v.context.superblock_block g)

  abbrev pub group_of : Volume drv.Device → ℕ → BlockGroupDescriptor
  group_of v g = read_descriptor (take descriptor_size (drop (descriptor_offset g) (sector_of v g)))

  pub resized :
      (v : Volume drv.Device) (sysbuf : List ℕ)
      → IsMounted v
      → length sysbuf ≡ 512
      → IsMounted (with_sysbuf v sysbuf)
  unfolding ext2_block_size
  resized v sysbuf is sized = record {
    ready = is.ready;
    sysbuf_sized = sized;
    superblock_fits = is.superblock_fits;
    copies_listed = is.copies_listed;
    primary_inside = is.primary_inside;
    tables_inside = is.tables_inside;
    copies_inside = is.copies_inside;
  }

  -- The volume of a device on which one sector was written.
  pub Wrote-IsMounted :
      (v : Volume drv.Device) (sysbuf bytes : List ℕ) (n : ℕ) (d : drv.Device)
      → IsMounted v
      → length sysbuf ≡ 512
      → Wrote drv.IsReady drv.volume_size drv.read_only drv.block_read n bytes v.device d
      → IsMounted (record (with_sysbuf v sysbuf) { device = d })
  unfolding ext2_block_size
  Wrote-IsMounted v sysbuf bytes n d is sized wrote = record {
    ready = wrote.ready;
    sysbuf_sized = sized;
    superblock_fits = is.superblock_fits;
    copies_listed = is.copies_listed;
    primary_inside = λ g lt. rw wrote.same_size (is.primary_inside g lt);
    tables_inside = λ i c g at lt. rw wrote.same_size (is.tables_inside i c g at lt);
    copies_inside = λ i c at. rw wrote.same_size (is.copies_inside i c at);
  }

  sector_bytes-read :
      (d : drv.Device) (sector : ℕ) (bytes : List ℕ)
      → drv.block_read sector d ≡ some (ok bytes)
      → sector_bytes d sector ≡ bytes
  unfolding sector_bytes
  sector_bytes-read d sector bytes e = rw (sector_bytes, e)

  pub sector_bytes-same :
      (d d' : drv.Device) (sector : ℕ)
      → drv.block_read sector d' ≡ drv.block_read sector d
      → sector_bytes d' sector ≡ sector_bytes d sector
  unfolding sector_bytes
  sector_bytes-same d d' sector e = rw (sector_bytes, e)

  pub sector_read :
      (v : Volume drv.Device) (g : ℕ)
      → IsMounted v
      → g < v.context.num_blockgroups
      → (drv.block_read (table_sector v.context v.context.superblock_block g) v.device
          ≡ some (ok (sector_of v g)))
        × (length (sector_of v g) ≡ 512)
  sector_read v g is lt =
      let (sector, read, sized) =
        drv.read_inside v.device (table_sector v.context v.context.superblock_block g) is.ready
          (is.primary_inside g lt) in
      let e : sector_of v g ≡ sector = sector_bytes-read v.device _ sector read in
      rw e (read, sized)

  inside :
      (v : Volume drv.Device) (g : ℕ)
      → IsMounted v
      → g < v.context.num_blockgroups
      → ext2_get_bg_descriptor g v ≡ some (ok (group_of v g), with_sysbuf v (sector_of v g))
  unfolding ext2_get_bg_descriptor read_sysbuf ◌>>=◌
  inside v g is lt =
      let (read, sized) = sector_read v g is lt in
      let cut =
        slice_inside (sector_of v g) (descriptor_offset g) descriptor_size (omega (arith, sized)) in
      ground (arith, lt, read, cut)

  -- The descriptor of a group that there is.
  pub ext2_get_bg_descriptor-group_of :
      (v : Volume drv.Device) (g : ℕ)
      → IsMounted v
      → g < v.context.num_blockgroups
      → (ext2_get_bg_descriptor g v ≡ some (ok (group_of v g), with_sysbuf v (sector_of v g)))
        × IsMounted (with_sysbuf v (sector_of v g))
  ext2_get_bg_descriptor-group_of v g is lt =
      (inside v g is lt, resized v (sector_of v g) is (sector_read v g is lt).1)
