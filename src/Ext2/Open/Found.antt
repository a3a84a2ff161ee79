-- ===== src/Ext2/Open/Found.antt =====
-- The inode that `ext2_open_inode` reads, and the table of its group.
use embext.Base.{
  ℕ, suc, ◌+◌, ◌-◌, ◌*◌, ◌/◌, ◌%◌, ◌^◌, ◌<◌, ◌≤◌, ◌≡◌, ◌≢◌, ◌⊎◌, inl, inr, ◌∙◌, arith,
}
use native.Mathlib.Nat.{pow-suc}
use embext.Base.{some, List, take, drop, slice, slice_inside}
use embext.Driver.{BlockDriver, ok, failed}
use embext.Ext2.Layout.{read_descriptor, read_inode}
use embext.Ext2.Monad.{◌>>=◌, on_volume}
use embext.Ext2.State.{Fs, Context, u32, ext2_flag_read, ext2_block_size}
use embext.Ext2.Sector.{read_sysbuf}
use embext.Ext2.Group.Mounted.{IsMounted, table_sector}
use embext.Ext2.Group.Read.{with_sysbuf, sector_of, group_of, sector_read}
use embext.Ext2.Open.{bg_block, inode_block, load_inode, ext2_open_inode}

double_power : (n : ℕ) → 2 ^ (n + 1) ≡ 2 ^ n * 2
double_power n = let e : n + 1 ≡ suc n = omega arith in rw e (pow-suc 2 n)

-- The shift of the source and the quotient of `ext2_get_bg_descriptor` name the same sector.
bg_block-table_sector :
    (context : Context) (g : ℕ)
    → g < 2 ^ 27
    → context.superblock_block + 1 < 2 ^ 32
    → u32 (bg_block context g + context.part_start)
      ≡ table_sector context context.superblock_block g
unfolding ext2_block_size
bg_block-table_sector context g small block_small =
    let p : 2 ^ (context.superblock.s_log_block_size + 1)
        ≡ 2 ^ context.superblock.s_log_block_size * 2 =
      double_power context.superblock.s_log_block_size in
    let q : 1024 * 2 ^ context.superblock.s_log_block_size / 512
        ≡ 2 ^ context.superblock.s_log_block_size * 2 =
      omega arith in
    let r : u32 (g * 32) / 512 ≡ g / 16 = omega arith in
    let b : u32 (context.superblock_block + 1) ≡ context.superblock_block + 1 = omega arith in
    cc (p, q, r, b)

-- The place of an inode in the table of its group, with inodes of 128 bytes.
abbrev pub group_number : Context → ℕ → ℕ
group_number context inode = (inode - 1) / context.superblock.s_inodes_per_group

abbrev pub index_in_group : Context → ℕ → ℕ
index_in_group context inode = (inode - 1) % context.superblock.s_inodes_per_group

module _ ⦃drv : BlockDriver⦄ where
  -- The sector of the device that holds an inode.
  abbrev pub inode_sector : Fs drv.Device → ℕ → ℕ
  inode_sector s inode =
      let context = s.volume.context in
      let table = (group_of s.volume (group_number context inode)).bg_inode_table in
      u32 (inode_block context table (index_in_group context inode / 4) + context.part_start)

  -- The state with the file on an inode, whose sector is left in `sysbuf`.
  abbrev pub on_inode : Fs drv.Device → ℕ → List ℕ → Fs drv.Device
  on_inode s inode sector = record s {
    volume = with_sysbuf s.volume sector;
    file = record s.file {
      inode = read_inode (take 128 (drop (index_in_group s.volume.context inode % 4 * 128) sector));
      inode_number = inode;
      flags = ext2_flag_read;
      cursor = 0;
    };
  }

  loads :
      (s : Fs drv.Device) (inode g index : ℕ) (group_sector sector : List ℕ)
      → s.volume.context.superblock.s_inode_size ≡ 128
      → drv.block_read
          (u32 (bg_block s.volume.context g + s.volume.context.part_start))
          s.volume.device
        ≡ some (ok group_sector)
      → slice group_sector (u32 (g * 32) % 512) 32
        ≡ some (take 32 (drop (32 * (g % 16)) group_sector))
      → drv.block_read
          (u32 (
            inode_block s.volume.context
              (read_descriptor (take 32 (drop (32 * (g % 16)) group_sector))).bg_inode_table
              (index / 4)
            + s.volume.context.part_start))
          s.volume.device
        ≡ some (ok sector)
      → slice sector (index % 4 * 128) 128 ≡ some (take 128 (drop (index % 4 * 128) sector))
      → load_inode inode g index s
        ≡ some (
          ok tt,
          record s {
            volume = with_sysbuf s.volume sector;
            file = record s.file {
              inode = read_inode (take 128 (drop (index % 4 * 128) sector));
              inode_number = inode;
              flags = ext2_flag_read;
              cursor = 0;
            };
          },
        )
  unfolding load_inode read_sysbuf on_volume ◌>>=◌
  loads s inode g index group_sector sector size read cut read_table cut_inode =
      ground (arith, size, read, cut, read_table, cut_inode)

  goes_on :
      (s : Fs drv.Device) (inode : ℕ)
      → s.volume.context.superblock.s_inodes_per_group ≢ 0
      → inode ≢ 0
      → inode ≤ s.volume.context.superblock.s_inodes_count
      → inode < 2 ^ 32
      → ext2_open_inode inode s
        ≡ load_inode inode
            (group_number s.volume.context inode)
            (index_in_group s.volume.context inode)
            s
  unfolding ext2_open_inode ◌>>=◌
  goes_on s inode per_group number below small =
      let e : u32 (inode + 2 ^ 32 - 1) ≡ inode - 1 = omega arith in
      ground (arith, e, per_group, number, below)

  -- On a mounted volume with inodes of 128 bytes, opening an inode by its number, which is at least 1
  -- and at most the count, in a group that there is, whose sector lies on the device: the file then
  -- holds the inode that stands at its index in the table of its group, the table that the group's
  -- descriptor names; it is open for reading, with the cursor at the start.
  pub ext2_open_inode-on_inode :
      (s : Fs drv.Device) (inode : ℕ)
      → IsMounted s.volume
      → s.volume.context.superblock.s_inode_size ≡ 128
      → s.volume.context.superblock.s_inodes_per_group ≢ 0
      → inode ≢ 0
      → inode ≤ s.volume.context.superblock.s_inodes_count
      → inode < 2 ^ 32
      → group_number s.volume.context inode < s.volume.context.num_blockgroups
      → group_number s.volume.context inode < 2 ^ 27
      → s.volume.context.superblock_block + 1 < 2 ^ 32
      → inode_sector s inode < drv.volume_size s.volume.device
      → (sector : List ℕ) × (drv.block_read (inode_sector s inode) s.volume.device
          ≡ some (ok sector))
        × (ext2_open_inode inode s ≡ some (ok tt, on_inode s inode sector))
  ext2_open_inode-on_inode s inode is size per_group number below small group group_small
        block_small inside =
      let g = group_number s.volume.context inode in
      let index = index_in_group s.volume.context inode in
      let (group_read, group_sized) = sector_read s.volume g is group in
      let place = bg_block-table_sector s.volume.context g group_small block_small in
      let offset : u32 (g * 32) % 512 ≡ 32 * (g % 16) = omega arith in
      let (sector, read, sized) =
        drv.read_inside s.volume.device (inode_sector s inode) is.ready inside in
      let cut =
        slice_inside (sector_of s.volume g) (32 * (g % 16)) 32 (omega (arith, group_sized)) in
      let cut_inode = slice_inside sector (index % 4 * 128) 128 (omega (arith, sized)) in
      (
        sector,
        read,
        goes_on s inode per_group number below small
            ∙ loads s inode g index (sector_of s.volume g) sector size (rw place group_read)
                (rw offset cut) read cut_inode,
      )

  -- The number 0 and a number above the count are refused, and nothing is read.
  pub ext2_open_inode-refused :
      (s : Fs drv.Device) (inode : ℕ)
      → s.volume.context.superblock.s_inodes_per_group ≢ 0
      → (inode ≡ 0) ⊎ (s.volume.context.superblock.s_inodes_count < inode)
      → ext2_open_inode inode s ≡ some (failed, s)
  unfolding ext2_open_inode ◌>>=◌
  ext2_open_inode-refused s inode per_group (inl none) = ground (arith, per_group, none)
  ext2_open_inode-refused s inode per_group (inr above) = ground (arith, per_group, above)
