-- ===== src/Ext2/Close/Flush.antt =====
-- `ext2_flush_inode`: the steps, and what they do to the device.
use embext.Base.{ℕ, ◌+◌, ◌-◌, ◌*◌, ◌/◌, ◌%◌, ◌^◌, ◌<◌, ◌≤◌, ◌≡◌, ◌≢◌, refl, sym, ◌∙◌, arith}
use embext.Base.{some, List, length, slice, splice, splice_inside, overlay}
use embext.Base.{slice-overlay_self, length-overlay, bit_and}
use embext.Driver.{BlockDriver, ok, Wrote}
use embext.Ext2.Layout.{inode_bytes}
use embext.Ext2.Layout.RoundTrip.{IsInode, length-inode_bytes}
use embext.Ext2.Monad.{◌>>=◌, on_volume}
use embext.Ext2.State.{Fs, Context, u32, ext2_block_size, ext2_flag_fs_dirty}
use embext.Ext2.Group.{ext2_get_bg_descriptor}
use embext.Ext2.Group.Mounted.{IsMounted, table_sector}
use embext.Ext2.Group.Read.{with_sysbuf, sector_of, group_of, ext2_get_bg_descriptor-group_of}
use embext.Ext2.Buffer.{lba_of, set_buffer, ext2_write_buffer, ext2_load_buffer, ext2_store_buffer}
use embext.Ext2.Buffer.Loaded.{loaded, stored, load-clean, store-ready}
use embext.Ext2.Open.{inode_block}
use embext.Ext2.Open.Found.{group_number, index_in_group, inode_sector}
use embext.Ext2.Close.{clear_fs_dirty, ext2_flush_inode}

module _ ⦃drv : BlockDriver⦄ where
  -- The file of a state holds an inode that has changed, on a volume of 1024-byte blocks and inodes
  -- of 128 bytes; its buffer is clean, and its sector lies on the device, apart from the sector of
  -- the descriptor of its group.
  pub record IsChanged (s : Fs drv.Device) : Type 0 where
    pub mounted : IsMounted s.volume
    pub small_blocks : s.volume.context.superblock.s_log_block_size ≡ 0
    pub inode_size : s.volume.context.superblock.s_inode_size ≡ 128
    pub per_group : s.volume.context.superblock.s_inodes_per_group ≢ 0
    pub few_per_group : s.volume.context.superblock.s_inodes_per_group ≤ 2 ^ 25
    pub number : s.file.inode_number ≢ 0
    pub number_small : s.file.inode_number < 2 ^ 32
    pub counted : s.file.inode_number ≤ s.volume.context.superblock.s_inodes_count
    pub group : group_number s.volume.context s.file.inode_number < s.volume.context.num_blockgroups
    pub group_small : group_number s.volume.context s.file.inode_number < 2 ^ 27
    pub block_small : s.volume.context.superblock_block + 1 < 2 ^ 32
    pub table_small :
        (group_of s.volume (group_number s.volume.context s.file.inode_number)).bg_inode_table
        < 2 ^ 30
    pub inside : inode_sector s s.file.inode_number < drv.volume_size s.volume.device
    pub apart :
        table_sector s.volume.context s.volume.context.superblock_block
          (group_number s.volume.context s.file.inode_number)
        ≢ inode_sector s s.file.inode_number
    pub changed : bit_and s.file.flags ext2_flag_fs_dirty ≢ 0
    pub clean : s.file.buffer.dirty ≡ 0
    pub fits : IsInode s.file.inode

  abbrev pub number_of : Fs drv.Device → ℕ
  number_of s = s.file.inode_number

  -- The block and the offset that the flush loads.
  abbrev pub table_block : Fs drv.Device → ℕ
  table_block s = u32 (
      (group_of s.volume (group_number s.volume.context (number_of s))).bg_inode_table
      + index_in_group s.volume.context (number_of s) / (1024 / 128))

  abbrev pub byte_in_table : Fs drv.Device → ℕ
  byte_in_table s = u32 (index_in_group s.volume.context (number_of s) * 128)

  -- The two computations of the sector agree.
  pub same_sector :
      (context : Context) (table index : ℕ)
      → context.superblock.s_log_block_size ≡ 0
      → table < 2 ^ 30
      → index < 2 ^ 25
      → u32 (
          lba_of context (u32 (table + index / (1024 / 128))) (u32 (index * 128) % 1024)
          + context.part_start)
        ≡ u32 (inode_block context table (index / 4) + context.part_start)
  unfolding ext2_block_size
  same_sector context table index small table_small index_small =
      let block : u32 (u32 (table + index / 8) * 2) ≡ (table + index / 8) * 2 = omega arith in
      let part : u32 (index * 128) % 1024 / 512 ≡ index / 4 % 2 = omega arith in
      let sum : u32 ((table + index / 8) * 2 + index / 4 % 2 * 1)
          ≡ u32 (u32 (table * 2) + index / 4) =
        omega arith in
      rw (small, block, part, sum)

  -- The states behind the steps of a flush: the descriptor read, the sector of the table loaded, the
  -- inode put into it.
  abbrev described : Fs drv.Device → Fs drv.Device
  described s = record s {
    volume =
        with_sysbuf s.volume (sector_of s.volume (group_number s.volume.context (number_of s)));
  }

  abbrev at_table : Fs drv.Device → List ℕ → Fs drv.Device
  at_table s sector =
      loaded (described s) (lba_of s.volume.context (table_block s) (byte_in_table s % 1024)) sector

  abbrev with_inode : Fs drv.Device → List ℕ → List ℕ → Fs drv.Device
  with_inode s sector sector' =
      let s1 = at_table s sector in
      record s1 { file = set_buffer (λ b. record b { buffer = sector'; dirty = 1 }) s1.file }

  -- The state behind the flush.
  abbrev pub flushed : Fs drv.Device → List ℕ → List ℕ → drv.Device → Fs drv.Device
  flushed s sector sector' d =
      let s1 = stored (with_inode s sector sector') d in record s1 { file = clear_fs_dirty s1.file }

  runs :
      (s : Fs drv.Device) (sector sector' : List ℕ) (d : drv.Device)
      → ext2_block_size s.volume.context ≡ 1024
      → s.volume.context.superblock.s_inode_size ≡ 128
      → s.volume.context.superblock.s_inodes_per_group ≢ 0
      → u32 (number_of s + 2 ^ 32 - 1) ≡ number_of s - 1
      → bit_and s.file.flags ext2_flag_fs_dirty ≢ 0
      → on_volume (ext2_get_bg_descriptor (group_number s.volume.context (number_of s))) s
        ≡ some (ok (group_of s.volume (group_number s.volume.context (number_of s))), described s)
      → ext2_load_buffer (table_block s) (byte_in_table s % 1024) (described s)
        ≡ some (ok tt, at_table s sector)
      → ext2_write_buffer (inode_bytes s.file.inode) (byte_in_table s) (at_table s sector)
        ≡ some (tt, with_inode s sector sector')
      → ext2_store_buffer (with_inode s sector sector')
        ≡ some (ok tt, stored (with_inode s sector sector') d)
      → ext2_flush_inode s ≡ some (ok tt, flushed s sector sector' d)
  unfolding ext2_flush_inode ◌>>=◌
  runs s sector sector' d size inode_size per_group number changed described_e load put store =
      ground (arith, size, inode_size, per_group, number, changed, described_e, load, put, store)

  pub index_lt : (a n : ℕ) → n ≢ 0 → n ≤ 2 ^ 25 → a % n < 2 ^ 25
  index_lt a n pos le = let h : a % n < n = grind arith in omega (arith, h)

  pub at_offset :
      (sector bytes : List ℕ) (i j : ℕ)
      → i ≡ j
      → length bytes ≡ 128
      → i + length bytes ≤ length sector
      → slice (overlay sector i bytes) j 128 ≡ some bytes
  at_offset sector bytes i j e sized room =
      rw (← e) (slice-overlay_self sector i 128 bytes (sym sized) room)

  pub write_place :
      (n m : ℕ) (bytes : List ℕ) (d d' : drv.Device)
      → n ≡ m
      → Wrote drv.IsReady drv.volume_size drv.read_only drv.block_read n bytes d d'
      → Wrote drv.IsReady drv.volume_size drv.read_only drv.block_read m bytes d d'
  write_place n m bytes d d' e wrote = rw e at wrote

  pub size_1024 :
      (context : Context) → context.superblock.s_log_block_size ≡ 0 → ext2_block_size context ≡ 1024
  unfolding ext2_block_size
  size_1024 context e = rw e

  on_volume_run :
      (s : Fs drv.Device) (g : ℕ)
      → IsMounted s.volume
      → g < s.volume.context.num_blockgroups
      → on_volume (ext2_get_bg_descriptor g) s
        ≡ some (
          ok (group_of s.volume g),
          record s { volume = with_sysbuf s.volume (sector_of s.volume g) },
        )
  unfolding on_volume
  on_volume_run s g is lt = let (e, _) = ext2_get_bg_descriptor-group_of s.volume g is lt in rw e

  puts :
      (s : Fs drv.Device) (bytes sector' : List ℕ) (offset : ℕ)
      → splice s.file.buffer.buffer (offset % 512) bytes ≡ some sector'
      → ext2_write_buffer bytes offset s
        ≡ some (
          tt,
          record s { file = set_buffer (λ b. record b { buffer = sector'; dirty = 1 }) s.file },
        )
  unfolding ext2_write_buffer ◌>>=◌
  puts s bytes sector' offset e = rw e

  -- What the flush has done to the device.
  pub record IsFlushed (s s' : Fs drv.Device) (sector : List ℕ) : Type 0 where
    pub device : drv.Device
    pub bytes : List ℕ
    pub state : s' ≡ flushed s sector bytes device
    pub holds :
        slice bytes (index_in_group s.volume.context (number_of s) % 4 * 128) 128
        ≡ some (inode_bytes s.file.inode)
    pub sized : length bytes ≡ 512
    pub wrote :
        Wrote drv.IsReady drv.volume_size drv.read_only drv.block_read
          (inode_sector s (number_of s))
          bytes
          s.volume.device
          device

  pub ext2_flush_inode-IsFlushed :
      (s : Fs drv.Device)
      → IsChanged s
      → (s' : Fs drv.Device) × (sector : List ℕ) × (ext2_flush_inode s ≡ some (ok tt, s'))
        × IsFlushed s s' sector
  unfolding ext2_block_size
  ext2_flush_inode-IsFlushed s is =
      let context = s.volume.context in
      let g = group_number context (number_of s) in
      let index = index_in_group context (number_of s) in
      let size : ext2_block_size context ≡ 1024 = size_1024 context is.small_blocks in
      let index_small : index < 2 ^ 25 =
        index_lt (number_of s - 1) context.superblock.s_inodes_per_group is.per_group
          is.few_per_group in
      let place =
        same_sector context (group_of s.volume g).bg_inode_table index is.small_blocks
          is.table_small index_small in
      let (sector, read, sized) =
        drv.read_inside s.volume.device (inode_sector s (number_of s)) is.mounted.ready is.inside in
      let load =
        load-clean (described s) (table_block s) (byte_in_table s % 1024) sector is.clean
          (rw place read) in
      let offset : byte_in_table s % 512 ≡ index % 4 * 128 = omega (arith, index_small) in
      let length_inode = length-inode_bytes s.file.inode is.fits in
      let sector' = overlay sector (byte_in_table s % 512) (inode_bytes s.file.inode) in
      let room : byte_in_table s % 512 + length (inode_bytes s.file.inode) ≤ length sector =
        omega (arith, offset, length_inode, sized) in
      let put =
        puts (at_table s sector) (inode_bytes s.file.inode) sector' (byte_in_table s)
          (splice_inside sector (byte_in_table s % 512) (inode_bytes s.file.inode) room) in
      let sized' : length sector' ≡ 512 =
        length-overlay sector (byte_in_table s % 512) (inode_bytes s.file.inode) room ∙ sized in
      let (d, store, wrote) =
        store-ready (with_inode s sector sector') is.mounted.ready (rw place is.inside) sized' in
      let number : u32 (number_of s + 2 ^ 32 - 1) ≡ number_of s - 1 =
        omega (arith, is.number, is.number_small) in
      (
        flushed s sector sector' d,
        sector,
        runs s sector sector' d size is.inode_size is.per_group number is.changed
            (on_volume_run s g is.mounted is.group) load put store,
        record {
          device = d;
          bytes = sector';
          state = refl;
          holds =
              at_offset sector (inode_bytes s.file.inode) (byte_in_table s % 512) (index % 4 * 128)
                offset length_inode room;
          sized = sized';
          wrote = write_place _ _ sector' s.volume.device d place wrote;
        },
      )
