-- ===== src/Ext2/AppendTests.antt =====
-- The theorem on appending, at a volume with a root directory.
use embext.Base.{ℕ, ◌≡◌, refl, arith, some, List, [], ◌∷◌, ◌++◌, length}
use embext.Base.{replicate, take, slice}
use embext.Bytes.{pack, le_encode}
use embext.BlockPc.{Pc, past_end, byte_offset, block_read, block_get_volume_size}
use embext.BlockPc.Laws.{block_pc}
use embext.Driver.{ok}
use embext.Ext2.State.{Fs, ext2_block_size}
use embext.Ext2.Buffer.Loaded.{load_sector}
use embext.Ext2.Directory.{dir_header_bytes}
use embext.Ext2.Append.{LastEntry, entry_length, append_in_block}
use embext.Ext2.Append.Sector.{entries}
use embext.Ext2.Append.Calls.{cut_header, new_header}
use embext.Ext2.Append.Entry.{append_in_block-IsEdited}
use embext.Ext2.Transfer.Since.{IsSector, IsEdited}
use embext.Ext2.Sample.Tree.{tree_fs, tree_device, root_inode, root_block, tree_device-IsWhole}

-- The root directory, open for reading and writing.
abbrev root_fs : Fs Pc
root_fs = record tree_fs {
  file = record tree_fs.file { inode = root_inode; cursor = 0; flags = 6 };
}

-- The entry of the file "a".
abbrev last_entry : LastEntry
last_entry = record {
  offset = 12;
  header = record { inode = 3; rec_len = 1012; name_len = 1; file_type = 1 };
}

-- What is kept of it: its name, padded.
abbrev kept : List ℕ
kept = 97 ∷ replicate 3 0

root_fs-IsSector : IsSector ⦃drv = block_pc⦄ root_fs 0 4
unfolding ext2_block_size block_get_volume_size
root_fs-IsSector = record {
  small_blocks = refl;
  pointers = refl;
  below = omega arith;
  pointer = refl;
  allocated = omega arith;
  inside = omega arith;
}

first_sector :
    entries
      (take 12 root_block)
      last_entry.header
      kept
      (replicate 8 0 ++ (replicate 2 0 ++ replicate 478 0))
    ≡ take 512 root_block
unfolding dir_header_bytes pack le_encode
first_sector = refl

first_sized :
    length (
      entries
        (take 12 root_block)
        last_entry.header
        kept
        (replicate 8 0 ++ (replicate 2 0 ++ replicate 478 0)))
    ≡ 512
unfolding dir_header_bytes pack le_encode
first_sized = refl

sector_read : block_read 8 tree_device ≡ some (ok (take 512 root_block))
unfolding block_read past_end byte_offset slice
sector_read = refl

sector_number : load_sector root_fs 4 0 ≡ 8
unfolding ext2_block_size
sector_number = refl

length_of_a : entry_length 1 ≡ 12
unfolding entry_length
length_of_a = refl

-- The name "bc" for inode 5; sector 3 of the device is not changed.
append_in_block-IsEdited_example :
    (s' : Fs Pc) × (append_in_block ⦃drv = block_pc⦄ 5 (98 ∷ 99 ∷ []) 0 1024 last_entry root_fs
      ≡ some (tt, s'))
    × IsEdited ⦃drv = block_pc⦄ root_fs 0 4 3
        (entries (take 12 root_block) (cut_header last_entry) kept (
          dir_header_bytes (new_header 5 (98 ∷ 99 ∷ []) 1024 last_entry)
          ++ (98 ∷ 99 ∷ replicate 478 0)))
        s'
append_in_block-IsEdited_example =
    append_in_block-IsEdited ⦃drv = block_pc⦄ root_fs 4 3 5 0 (98 ∷ 99 ∷ []) last_entry
      (take 12 root_block) kept (replicate 8 0) (replicate 2 0) (replicate 478 0) refl refl refl
      tree_device-IsWhole root_fs-IsSector (rw (sector_number, first_sector) sector_read)
      first_sized refl (omega (arith, length_of_a)) refl refl (omega arith) (omega arith)
      (omega (arith, length_of_a)) (omega (arith, length_of_a))
      (unfold block_get_volume_size in omega arith) (omega (arith, sector_number))
