-- ===== src/Ext2/Close/Persisted.antt =====
-- `ext2_close` of a file with a modified buffer and a changed inode, and `ext2_open_inode` behind it.
use embext.Base.{
  ℕ, ◌+◌, ◌*◌, ◌/◌, ◌%◌, ◌<◌, ◌≡◌, ◌≢◌, ◌∙◌, sym, ap, refl, arith, some, List, length, pos,
}
use embext.Base.{bit_and, take, drop}
use embext.Driver.{BlockDriver, ok, Wrote}
use embext.Ext2.Layout.{read_descriptor}
use embext.Ext2.Monad.{◌>>=◌}
use embext.Ext2.State.{Fs, u32, embext_magic, ext2_flag_fs_dirty}
use embext.Ext2.Group.Mounted.{table_sector}
use embext.Ext2.Group.Read.{Wrote-IsMounted, sector_bytes-same, sector_of}
use embext.Ext2.Buffer.{buffer_sector, ext2_store_buffer}
use embext.Ext2.Buffer.Loaded.{stored, store-ready}
use embext.Ext2.Open.{inode_block, ext2_open_inode}
use embext.Ext2.Open.Found.{group_number, index_in_group, inode_sector}
use embext.Ext2.Seek.{file}
use embext.Ext2.Close.{ext2_flush_inode, ext2_close, close_flushed}
use embext.Ext2.Close.Closed.{closed}
use embext.Ext2.Close.Flush.{IsChanged, number_of, flushed, ext2_flush_inode-IsFlushed}
use embext.Ext2.Close.Inode.{reopened}

module _ ⦃drv : BlockDriver⦄ where
  -- The sector of the descriptor of the group of the file's inode.
  abbrev pub descriptor_sector : Fs drv.Device → ℕ
  descriptor_sector s =
      table_sector s.volume.context s.volume.context.superblock_block
        (group_number s.volume.context (number_of s))

  -- A file as it would be with its buffer clean.
  abbrev pub without_buffer : Fs drv.Device → Fs drv.Device
  without_buffer s = stored s s.volume.device

  -- A write elsewhere leaves the descriptor alone.
  same_descriptors :
      (s : Fs drv.Device) (n : ℕ) (bytes : List ℕ) (d : drv.Device)
      → IsChanged (without_buffer s)
      → n ≢ descriptor_sector s
      → Wrote drv.IsReady drv.volume_size drv.read_only drv.block_read n bytes s.volume.device d
      → sector_of (stored s d).volume (group_number s.volume.context (number_of s))
        ≡ sector_of s.volume (group_number s.volume.context (number_of s))
  same_descriptors s n bytes d is apart wrote =
      sector_bytes-same s.volume.device d (descriptor_sector s) (
        wrote.others (descriptor_sector s)
          (is.mounted.primary_inside (group_number s.volume.context (number_of s)) is.group)
          (λ e. apart (sym e)))

  same_inode_sector :
      (s : Fs drv.Device) (d : drv.Device)
      → sector_of (stored s d).volume (group_number s.volume.context (number_of s))
        ≡ sector_of s.volume (group_number s.volume.context (number_of s))
      → inode_sector (stored s d) (number_of s) ≡ inode_sector s (number_of s)
  same_inode_sector s d e =
      let g = group_number s.volume.context (number_of s) in
      ap
        (λ held. u32 (
          inode_block s.volume.context
            (read_descriptor (take 32 (drop (32 * (g % 16)) held))).bg_inode_table
            (index_in_group s.volume.context (number_of s) / 4)
          + s.volume.context.part_start))
        e

  stored-IsChanged :
      (s : Fs drv.Device) (n : ℕ) (bytes : List ℕ) (d : drv.Device)
      → IsChanged (without_buffer s)
      → n ≢ descriptor_sector s
      → Wrote drv.IsReady drv.volume_size drv.read_only drv.block_read n bytes s.volume.device d
      → IsChanged (stored s d)
  stored-IsChanged s n bytes d is apart wrote =
      let held = same_descriptors s n bytes d is apart wrote in
      let place = same_inode_sector s d held in
      let g = group_number s.volume.context (number_of s) in
      record {
        mounted =
            Wrote-IsMounted s.volume s.volume.context.sysbuf bytes n d is.mounted
              is.mounted.sysbuf_sized wrote;
        small_blocks = is.small_blocks;
        inode_size = is.inode_size;
        per_group = is.per_group;
        few_per_group = is.few_per_group;
        number = is.number;
        number_small = is.number_small;
        counted = is.counted;
        group = is.group;
        group_small = is.group_small;
        block_small = is.block_small;
        table_small = rw held is.table_small;
        inside = rw (place, wrote.same_size) is.inside;
        apart = rw place is.apart;
        changed = is.changed;
        clean = refl;
        fits = is.fits;
      }

  ran :
      (s s' : Fs drv.Device) (d : drv.Device)
      → s.file.magic ≡ embext_magic
      → s.file.buffer.dirty ≢ 0
      → bit_and s.file.flags ext2_flag_fs_dirty ≢ 0
      → ext2_store_buffer s ≡ some (ok tt, stored s d)
      → ext2_flush_inode (stored s d) ≡ some (ok tt, s')
      → ext2_close file s ≡ some (pos 0, closed s')
  unfolding ext2_close close_flushed ◌>>=◌
  ran s s' d opened dirty changed store flush = ground (arith, opened, dirty, changed, store, flush)

  -- An open file on a mounted volume of 1024-byte blocks with inodes of 128 bytes, with a changed
  -- inode whose place is as `IsChanged` says, and a modified buffer of 512 bytes, whose sector lies
  -- on the device and is neither the sector of the inode nor that of its group's descriptor:
  -- closing it succeeds; behind the call the device has the bytes of the buffer in its sector, and
  -- opening the inode of that number finds it again, all fields equal.
  pub ext2_close-ext2_open_inode :
      (s : Fs drv.Device)
      → s.file.magic ≡ embext_magic
      → s.file.buffer.dirty ≢ 0
      → IsChanged (without_buffer s)
      → buffer_sector s.file s.volume.context < drv.volume_size s.volume.device
      → length s.file.buffer.buffer ≡ 512
      → buffer_sector s.file s.volume.context ≢ inode_sector s (number_of s)
      → buffer_sector s.file s.volume.context ≢ descriptor_sector s
      → (s' : Fs drv.Device) × (s'' : Fs drv.Device) × (ext2_close file s ≡ some (pos 0, s'))
        × (s'.file.magic ≡ 0)
        × (drv.block_read (buffer_sector s.file s.volume.context) s'.volume.device
            ≡ some (ok s.file.buffer.buffer))
        × (ext2_open_inode (number_of s) s' ≡ some (ok tt, s''))
        × (s''.file.inode ≡ s.file.inode)
  ext2_close-ext2_open_inode s opened dirty is inside sized not_inode not_descriptor =
      let n = buffer_sector s.file s.volume.context in
      let (d, store, wrote) = store-ready s is.mounted.ready inside sized in
      let changed = stored-IsChanged s n s.file.buffer.buffer d is not_descriptor wrote in
      let place =
        same_inode_sector s d
          (same_descriptors s n s.file.buffer.buffer d is not_descriptor wrote) in
      let (s1, sector, flush, flushes) = ext2_flush_inode-IsFlushed (stored s d) changed in
      let s2 = flushed (stored s d) sector flushes.bytes flushes.device in
      let (s'', opens, same) =
        reopened (stored s d) (closed s2).file sector flushes.bytes flushes.device changed
          flushes.holds flushes.sized flushes.wrote in
      (
        closed s2,
        s'',
        ran s s2 d opened dirty is.changed store (flush ∙ ap (λ t. some (ok tt, t)) flushes.state),
        refl,
        flushes.wrote.others n (rw wrote.same_size inside) (rw place not_inode) ∙ wrote.written,
        opens,
        same,
      )
