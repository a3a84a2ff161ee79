-- ===== src/Ext2/Lookup/Resolve.antt =====
-- The lookup of a path on a mounted volume, against the tree of directories on its device.
use embext.Base.{ℕ, ◌+◌, ◌*◌, ◌/◌, ◌%◌, ◌^◌, ◌<◌, ◌≤◌, ◌≡◌, ◌≢◌, arith}
use embext.Base.{Option, none, some, List, [], ◌∷◌, length, take, drop, ℤ, minus_one, to_int}
use embext.Driver.{BlockDriver, Reply, ok}
use embext.Ext2.Layout.{Inode, read_inode}
use embext.Ext2.State.{Fs, Volume, u32, ext2_block_size, ext2_flag_read, enoent}
use embext.Ext2.State.{embext_magic}
use embext.Ext2.Group.Mounted.{IsMounted}
use embext.Ext2.Group.Read.{with_sysbuf, group_of, resized}
use embext.Ext2.Open.{inode_block, ext2_open_inode}
use embext.Ext2.Open.Found.{group_number, index_in_group, ext2_open_inode-on_inode}
use embext.Ext2.Directory.{Dirent}
use embext.Ext2.Directory.Content.{IsContent}
use embext.Ext2.Directory.Entries.{DirEntry}
use embext.Ext2.Lookup.Scan.{directory_bytes, AreEntriesAt, Finds}
use embext.Ext2.Lookup.{Outcome, lookup_levels}

module _ ⦃drv : BlockDriver⦄ where
  -- The sector of the device with an inode.
  abbrev pub sector_of_inode : Volume drv.Device → ℕ → ℕ
  sector_of_inode v n =
      let table = (group_of v (group_number v.context n)).bg_inode_table in
      u32 (inode_block v.context table (index_in_group v.context n / 4) + v.context.part_start)

  -- A mounted volume with inodes of 128 bytes.
  pub record HasInodes (v : Volume drv.Device) : Type 0 where
    pub mounted : IsMounted v
    pub inode_size : v.context.superblock.s_inode_size ≡ 128
    pub per_group : v.context.superblock.s_inodes_per_group ≢ 0
    pub block_small : v.context.superblock_block + 1 < 2 ^ 32

  -- An inode stands under its number in the tables on the device.
  pub record HasInode (v : Volume drv.Device) (n : ℕ) (inode : Inode) : Type 0 where
    pub numbered : n ≢ 0
    pub counted : n ≤ v.context.superblock.s_inodes_count
    pub small : n < 2 ^ 31
    pub group : group_number v.context n < v.context.num_blockgroups
    pub group_small : group_number v.context n < 2 ^ 27
    pub inside : sector_of_inode v n < drv.volume_size v.device
    pub sector : List ℕ
    pub read : drv.block_read (sector_of_inode v n) v.device ≡ some (ok sector)
    pub holds : read_inode (take 128 (drop (index_in_group v.context n % 4 * 128) sector)) ≡ inode

  abbrev pub opened_at : Volume drv.Device → List ℕ → ℕ → Inode → Fs drv.Device → Fs drv.Device
  opened_at v sector n inode s = record s {
    volume = with_sysbuf v sector;
    file = record s.file { inode = inode; inode_number = n; flags = ext2_flag_read; cursor = 0 };
  }

  same_read :
      {A : Type 0} (r : Option (Reply A)) (x y : A) → r ≡ some (ok x) → r ≡ some (ok y) → x ≡ y
  same_read r x y e f = ground (arith, e, f)

  -- Whatever `sysbuf` and the file hold, the inode is read.
  pub opens :
      (v : Volume drv.Device) (sysbuf : List ℕ) (s : Fs drv.Device) (n : ℕ) (inode : Inode)
      → HasInodes v
      → length sysbuf ≡ 512
      → HasInode v n inode
      → (sector : List ℕ) × (ext2_open_inode n (record s { volume = with_sysbuf v sysbuf })
          ≡ some (ok tt, opened_at v sector n inode s))
        × (length sector ≡ 512)
  unfolding ext2_block_size
  opens v sysbuf s n inode is sized has =
      let (sector, read, ran) =
        ext2_open_inode-on_inode (record s { volume = with_sysbuf v sysbuf }) n
          (resized v sysbuf is.mounted sized) is.inode_size is.per_group has.numbered has.counted
          (omega (arith, has.small)) has.group has.group_small is.block_small has.inside in
      let (bytes, read', length_512) =
        drv.read_inside v.device (sector_of_inode v n) is.mounted.ready has.inside in
      let same : bytes ≡ sector =
        same_read (drv.block_read (sector_of_inode v n) v.device) bytes sector read' read in
      let held : has.sector ≡ sector =
        same_read (drv.block_read (sector_of_inode v n) v.device) has.sector sector has.read read in
      (sector, rw (rw held at has.holds) at ran, rw same at length_512)

  -- The inode is that of a directory with these entries.
  pub record HasDirectory (v : Volume drv.Device) (n : ℕ) (es : List DirEntry) : Type 0 where
    pub inode : Inode
    pub has : HasInode v n inode
    pub content : IsContent v inode.i_block (directory_bytes es)
    pub size : inode.i_size ≡ length (directory_bytes es)
    pub entries : AreEntriesAt 0 es

  -- From inode `n` the names lead to an inode, or nowhere: a name is not in its directory, or the
  -- entry of one before the last has a number above the count.
  pub data Resolves (v : Volume drv.Device) : ℕ → List (List ℕ) → Option ℕ → Type 0 where
    arrived : (n : ℕ) → Resolves v n [] (some n)
    absent :
        (n : ℕ) (name : List ℕ) (names : List (List ℕ)) (es : List DirEntry)
        → HasDirectory v n es
        → Finds name es none
        → Resolves v n (name ∷ names) none
    above_count :
        (n : ℕ) (name : List ℕ) (names : List (List ℕ))
        → v.context.superblock.s_inodes_count < n
        → Resolves v n (name ∷ names) none
    below :
        (n : ℕ) (name : List ℕ) (names : List (List ℕ)) (es : List DirEntry) (k : ℕ) (r : Option ℕ)
        → HasDirectory v n es
        → Finds name es (some k)
        → Resolves v k names r
        → Resolves v n (name ∷ names) r

  -- What `ext2_lookup_path` returns.
  abbrev pub result_of : Option ℕ → ℤ
  result_of none = minus_one
  result_of (some k) = to_int k

  -- A state of the volume, with a file that is open and whose buffer is clean.
  pub record IsIdle (v : Volume drv.Device) (sysbuf : List ℕ) (s : Fs drv.Device) : Type 0 where
    pub on : s.volume ≡ with_sysbuf v sysbuf
    pub sized : length sysbuf ≡ 512
    pub opened : s.file.magic ≡ embext_magic
    pub clean : s.file.buffer.dirty ≡ 0

  -- The lookup ends with the answer `r`, and the device is what it was.
  pub record LookedUp (v : Volume drv.Device) (names : List (List ℕ)) (n : ℕ) (de : Dirent)
      (s : Fs drv.Device) (r : Option ℕ) : Type 0 where
    pub outcome : Outcome
    pub sysbuf : List ℕ
    pub behind : Fs drv.Device
    pub ran : lookup_levels names n de s ≡ some (outcome, behind)
    pub result : outcome.result ≡ result_of r
    pub error : r ≡ none → behind.errno ≡ enoent
    pub idle : IsIdle v sysbuf behind
    pub room : length outcome.de.d_name ≡ 256
