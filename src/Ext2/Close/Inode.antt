-- ===== src/Ext2/Close/Inode.antt =====
-- `ext2_flush_inode`, and `ext2_open_inode` behind it.
use embext.Base.{ℕ, ◌+◌, ◌*◌, ◌/◌, ◌%◌, ◌≡◌, sym, ◌∙◌, ap, arith}
use embext.Base.{some, List, length, take, drop, slice, slice_inside}
use embext.Driver.{BlockDriver, ok, Wrote}
use embext.Ext2.Layout.{read_descriptor, read_inode, inode_bytes}
use embext.Ext2.Layout.RoundTrip.{IsInode, read_inode-inode_bytes}
use embext.Ext2.State.{FileEnt, Fs, u32, ext2_block_size}
use embext.Ext2.Group.Mounted.{table_sector}
use embext.Ext2.Group.Read.{Wrote-IsMounted, sector_bytes-same, sector_read, sector_of}
use embext.Ext2.Open.{inode_block, ext2_open_inode}
use embext.Ext2.Open.Found.{
  group_number, index_in_group, inode_sector, on_inode, ext2_open_inode-on_inode,
}
use embext.Ext2.Close.{ext2_flush_inode}
use embext.Ext2.Close.Flush.{IsChanged, number_of, flushed, ext2_flush_inode-IsFlushed}

module _ ⦃drv : BlockDriver⦄ where
  -- The flush leaves the sector of the group's descriptor alone, and so the place of the inode.
  same_place :
      (s : Fs drv.Device) (sector bytes : List ℕ) (d : drv.Device)
      → IsChanged s
      → Wrote drv.IsReady drv.volume_size drv.read_only drv.block_read
          (inode_sector s (number_of s))
          bytes
          s.volume.device
          d
      → inode_sector (flushed s sector bytes d) (number_of s) ≡ inode_sector s (number_of s)
  unfolding ext2_block_size
  same_place s sector bytes d is wrote =
      let g = group_number s.volume.context (number_of s) in
      let table = table_sector s.volume.context s.volume.context.superblock_block g in
      let e =
        sector_bytes-same s.volume.device d table
          (wrote.others table (is.mounted.primary_inside g is.group) is.apart) in
      ap
        (λ held. u32 (
          inode_block s.volume.context
            (read_descriptor (take 32 (drop (32 * (g % 16)) held))).bg_inode_table
            (index_in_group s.volume.context (number_of s) / 4)
          + s.volume.context.part_start))
        e

  one_read : (a b : List ℕ) → some (ok a) ≡ some (ok b) → a ≡ b
  one_read a b e = ground (arith, e)

  one_slice : (a b : List ℕ) → some a ≡ some b → a ≡ b
  one_slice a b e = ground (arith, e)

  found :
      (s : Fs drv.Device) (bytes sector : List ℕ) (d : drv.Device)
      → IsInode s.file.inode
      → slice bytes (index_in_group s.volume.context (number_of s) % 4 * 128) 128
        ≡ some (inode_bytes s.file.inode)
      → length bytes ≡ 512
      → drv.block_read (inode_sector s (number_of s)) d ≡ some (ok bytes)
      → drv.block_read (inode_sector s (number_of s)) d ≡ some (ok sector)
      → read_inode
          (take 128 (drop (index_in_group s.volume.context (number_of s) % 4 * 128) sector))
        ≡ s.file.inode
  found s bytes sector d fits holds sized written read =
      let offset = index_in_group s.volume.context (number_of s) % 4 * 128 in
      let same : sector ≡ bytes = one_read sector bytes (sym read ∙ written) in
      let cut = slice_inside bytes offset 128 (omega (arith, sized)) in
      let e : take 128 (drop offset bytes) ≡ inode_bytes s.file.inode =
        one_slice _ _ (sym cut ∙ holds) in
      rw (same, e) (read_inode-inode_bytes s.file.inode fits)

  -- Whatever file is opened on the volume behind the flush.
  pub reopened :
      (s : Fs drv.Device) (fe : FileEnt) (sector bytes : List ℕ) (d : drv.Device)
      → IsChanged s
      → slice bytes (index_in_group s.volume.context (number_of s) % 4 * 128) 128
        ≡ some (inode_bytes s.file.inode)
      → length bytes ≡ 512
      → Wrote drv.IsReady drv.volume_size drv.read_only drv.block_read
          (inode_sector s (number_of s))
          bytes
          s.volume.device
          d
      → (s'' : Fs drv.Device) × (ext2_open_inode
            (number_of s)
            (record (flushed s sector bytes d) { file = fe })
          ≡ some (ok tt, s''))
        × (s''.file.inode ≡ s.file.inode)
  reopened s fe sector bytes d is holds sized wrote =
      let context = s.volume.context in
      let g = group_number context (number_of s) in
      let s' : Fs drv.Device = record (flushed s sector bytes d) { file = fe } in
      let mounted =
        Wrote-IsMounted s.volume (sector_of s.volume g) bytes _ d is.mounted
          (sector_read s.volume g is.mounted is.group).1 wrote in
      let place = same_place s sector bytes d is wrote in
      let (sector2, read, ran) =
        ext2_open_inode-on_inode s' (number_of s) mounted is.inode_size is.per_group is.number
          is.counted is.number_small is.group is.group_small is.block_small
          (rw (place, wrote.same_size) is.inside) in
      (
        on_inode s' (number_of s) sector2,
        ran,
        found s bytes sector2 d is.fits holds sized wrote.written (rw place at read),
      )

  -- On a mounted volume of 1024-byte blocks with inodes of 128 bytes, for a file with a clean
  -- buffer and a changed inode that fits its struct, whose number is in range and whose sector
  -- lies on the device apart from that of its group's descriptor (`IsChanged`): flushing the
  -- inode succeeds, and opening the inode of that number on the resulting volume finds it
  -- again, all fields equal. The flush writes the one sector of the device that holds the
  -- inode, and no other.
  pub ext2_flush_inode-ext2_open_inode :
      (s : Fs drv.Device)
      → IsChanged s
      → (s' : Fs drv.Device) × (s'' : Fs drv.Device) × (bytes : List ℕ) × (ext2_flush_inode s
          ≡ some (ok tt, s'))
        × (ext2_open_inode s.file.inode_number s' ≡ some (ok tt, s''))
        × (s''.file.inode ≡ s.file.inode)
        × Wrote drv.IsReady drv.volume_size drv.read_only drv.block_read
            (inode_sector s s.file.inode_number)
            bytes
            s.volume.device
            s'.volume.device
  ext2_flush_inode-ext2_open_inode s is =
      let (s', sector, ran, flushes) = ext2_flush_inode-IsFlushed s is in
      let (s'', opens, same) =
        reopened s (flushed s sector flushes.bytes flushes.device).file sector flushes.bytes
          flushes.device is flushes.holds flushes.sized flushes.wrote in
      (
        flushed s sector flushes.bytes flushes.device,
        s'',
        flushes.bytes,
        ran ∙ ap (λ t. some (ok tt, t)) flushes.state,
        opens,
        same,
        flushes.wrote,
      )
