-- ===== src/Ext2/Sample/Tree.antt =====
-- A volume with a root directory of two entries, itself and a file.
use embext.Base.{ℕ, ◌-◌, ◌/◌, ◌%◌, ◌<◌, ◌≤◌, ◌≡◌, refl, arith, some, none, ◌++◌}
use embext.Base.{List, [], ◌∷◌, take, drop, replicate, slice, ap, get_or}
use native.Mathlib.Decide.{dec_lt}
use embext.Bytes.{unpack, pack, le_decode, le_encode}
use embext.BlockPc.{Pc, past_end, byte_offset, block_read, block_get_volume_size}
use embext.BlockPc.Laws.{IsWhole, block_pc}
use embext.Ext2.Layout.{Inode, read_inode, read_descriptor}
use embext.Ext2.Layout.InodeStruct.{inode_of}
use embext.Ext2.State.{Fs, Volume, ext2_block_size}
use embext.Ext2.Group.Read.{sector_bytes}
use embext.Ext2.Directory.{dir_header_bytes}
use embext.Ext2.Directory.Content.{IsContent, IsSectorAt}
use embext.Ext2.Directory.Entries.{DirEntry, entry_bytes, IsEntryAt}
use embext.Ext2.Lookup.Scan.{directory_bytes, AreEntriesAt, found_here, found_later, nowhere}
use embext.Ext2.Lookup.Resolve.{HasInodes, HasInode, HasDirectory, Resolves, arrived, below, absent}
use embext.Ext2.Sample.{small_volume, small_fs}
use embext.Ext2.Sample.Sound.{large_enough-IsMounted}

abbrev pub root_entry : DirEntry
root_entry = record { number = 2; name = 46 ∷ []; kind = 2; pad = replicate 3 0 }

-- The name "a".
abbrev pub file_entry : DirEntry
file_entry = record { number = 3; name = 97 ∷ []; kind = 1; pad = replicate 1003 0 }

abbrev pub root_entries : List DirEntry
root_entries = root_entry ∷ file_entry ∷ []

abbrev pub root_block : List ℕ
root_block =
    2
    ∷ 0
    ∷ 0
    ∷ 0
    ∷ 12
    ∷ 0
    ∷ 1
    ∷ 2
    ∷ 46
    ∷ 0
    ∷ 0
    ∷ 0
    ∷ 3
    ∷ 0
    ∷ 0
    ∷ 0
    ∷ 244
    ∷ 3
    ∷ 1
    ∷ 1
    ∷ 97
    ∷ replicate 1003 0

pub root_bytes : directory_bytes root_entries ≡ root_block
unfolding entry_bytes dir_header_bytes pack le_encode
root_bytes = refl

abbrev pub root_inode : Inode
root_inode = record (inode_of []) { i_mode = 0x4000; i_size = 1024; i_block = 4 ∷ replicate 14 0 }

abbrev pub file_inode : Inode
file_inode = record (inode_of []) { i_mode = 0x8000; i_size = 600; i_block = replicate 15 0 }

-- Five blocks: the descriptors in block 2, the table of inodes in block 3, the directory in block 4.
abbrev pub tree_device : Pc
tree_device = record {
  blocks =
      replicate 2056 0
      ++ (3 ∷ replicate 1143 0)
      ++ (0 ∷ 64 ∷ 0 ∷ 0 ∷ 0 ∷ 4 ∷ 0 ∷ 0 ∷ replicate 32 0)
      ++ (4 ∷ replicate 87 0)
      ++ (0 ∷ 128 ∷ 0 ∷ 0 ∷ 88 ∷ 2 ∷ replicate 762 0)
      ++ root_block;
  block_fs_size = 5120;
  block_ro = 0;
}

abbrev pub tree_volume : Volume Pc
tree_volume = record small_volume { device = tree_device }

abbrev pub tree_fs : Fs Pc
tree_fs = record small_fs { volume = tree_volume }

pub tree_device-IsWhole : IsWhole tree_device
tree_device-IsWhole = record { sized = refl; whole = refl; small = omega arith }

pub tree_volume-HasInodes : HasInodes ⦃drv = block_pc⦄ tree_volume
tree_volume-HasInodes = record {
  mounted = large_enough-IsMounted tree_device tree_device-IsWhole (omega arith);
  inode_size = refl;
  per_group = omega arith;
  block_small = omega arith;
}

root-HasInode : HasInode ⦃drv = block_pc⦄ tree_volume 2 root_inode
unfolding ext2_block_size sector_bytes read_descriptor read_inode unpack le_decode block_read
    past_end byte_offset slice block_get_volume_size
root-HasInode = record {
  numbered = omega arith;
  counted = omega arith;
  small = omega arith;
  group = omega arith;
  group_small = omega arith;
  inside = omega arith;
  sector = _;
  read = refl;
  holds = refl;
}

pub file-HasInode : HasInode ⦃drv = block_pc⦄ tree_volume 3 file_inode
unfolding ext2_block_size sector_bytes read_descriptor read_inode unpack le_decode block_read
    past_end byte_offset slice block_get_volume_size
file-HasInode = record {
  numbered = omega arith;
  counted = omega arith;
  small = omega arith;
  group = omega arith;
  group_small = omega arith;
  inside = omega arith;
  sector = _;
  read = refl;
  holds = refl;
}

first_half :
    (c : ℕ) → c < 512 → IsSectorAt ⦃drv = block_pc⦄ tree_volume root_inode.i_block root_block c
unfolding ext2_block_size
first_half c lt =
    let block : c / 1024 ≡ 0 = omega arith in
    let half : c % 1024 / 512 ≡ 0 = omega arith in
    let start : c - c % 512 ≡ 0 = omega arith in
    record {
      b = 4;
      bytes = take 512 root_block;
      pointer = rw block refl;
      allocated = omega arith;
      read =
          rw half
            (unfold block_read in unfold past_end in unfold byte_offset in unfold slice in refl);
      sized = refl;
      same = rw start refl;
    }

second_half :
    (c : ℕ)
    → 512 ≤ c
    → c < 1024
    → IsSectorAt ⦃drv = block_pc⦄ tree_volume root_inode.i_block root_block c
unfolding ext2_block_size
second_half c le lt =
    let block : c / 1024 ≡ 0 = omega arith in
    let half : c % 1024 / 512 ≡ 1 = omega arith in
    let start : c - c % 512 ≡ 512 = omega arith in
    record {
      b = 4;
      bytes = drop 512 root_block;
      pointer = rw block refl;
      allocated = omega arith;
      read =
          rw half
            (unfold block_read in unfold past_end in unfold byte_offset in unfold slice in refl);
      sized = refl;
      same = rw start refl;
    }

root_block-IsContent : IsContent ⦃drv = block_pc⦄ tree_volume root_inode.i_block root_block
root_block-IsContent = record {
  small_blocks = refl;
  pointers = refl;
  few = omega arith;
  sector = λ c lt. elim (dec_lt c 512) [
    | yes before ↦ first_half c before
    | no behind ↦ second_half c (omega arith) lt
  ];
}

pub root-IsContent :
    IsContent ⦃drv = block_pc⦄ tree_volume root_inode.i_block (directory_bytes root_entries)
root-IsContent = rw root_bytes root_block-IsContent

pub root_entry-IsEntryAt : IsEntryAt 0 root_entry
root_entry-IsEntryAt = record {
  numbered = omega arith;
  small = omega arith;
  text = (omega arith, tt);
  short = omega arith;
  fits = omega arith;
  typed = omega arith;
  aligned = refl;
  inside = omega arith;
}

pub file_entry-IsEntryAt : IsEntryAt 12 file_entry
file_entry-IsEntryAt = record {
  numbered = omega arith;
  small = omega arith;
  text = (omega arith, tt);
  short = omega arith;
  fits = omega arith;
  typed = omega arith;
  aligned = refl;
  inside = omega arith;
}

pub root_entries-AreEntriesAt : AreEntriesAt 0 root_entries
root_entries-AreEntriesAt = (root_entry-IsEntryAt, (file_entry-IsEntryAt, tt))

pub root-HasDirectory : HasDirectory ⦃drv = block_pc⦄ tree_volume 2 root_entries
root-HasDirectory = record {
  inode = root_inode;
  has = root-HasInode;
  content = root-IsContent;
  size = rw root_bytes refl;
  entries = root_entries-AreEntriesAt;
}

-- "/./a" is inode 3, and "/b" is nowhere.
pub file-Resolves : Resolves ⦃drv = block_pc⦄ tree_volume 2 ((46 ∷ []) ∷ (97 ∷ []) ∷ []) (some 3)
file-Resolves =
    below 2 (46 ∷ []) ((97 ∷ []) ∷ []) root_entries 2 (some 3) root-HasDirectory
      (found_here root_entry (file_entry ∷ []) refl)
      (below 2 (97 ∷ []) [] root_entries 3 (some 3) root-HasDirectory
        (found_later root_entry (file_entry ∷ []) (some 3)
          (λ e. absurd (omega (arith, ap (λ xs. get_or xs 0 0) e))) (found_here file_entry [] refl))
        (arrived 3))

pub none-Resolves : Resolves ⦃drv = block_pc⦄ tree_volume 2 ((98 ∷ []) ∷ []) none
none-Resolves = absent 2 (98 ∷ []) [] root_entries root-HasDirectory (
    found_later root_entry (file_entry ∷ []) none
      (λ e. absurd (omega (arith, ap (λ xs. get_or xs 0 0) e)))
      (found_later file_entry [] none (λ e. absurd (omega (arith, ap (λ xs. get_or xs 0 0) e)))
        nowhere))
