-- ===== src/Ext2/Tests.antt =====
-- Runs on a small volume, and the theorems there.
use embext.Base.{◌⊎◌, ◌↔◌}
use embext.Base.{ℕ, zero, suc, ◌+◌, ◌<◌, ◌≡◌, refl, arith, some, List}
use embext.Base.{get_elem?, length, replicate, true, false}
use embext.BlockPc.{Pc}
use embext.BlockPc.Laws.{block_pc}
use embext.Driver.{ok, failed}
use embext.Ext2.State.{Volume}
use embext.Ext2.Group.Mounted.{IsMounted}
use embext.Ext2.Group.Flush.{AreApart, Flushed, ext2_flush_superblock-Flushed}
use embext.Ext2.Group.{ext2_flush_superblock}
use embext.Ext2.Sample.Sound.{only_copy, small_volume-IsMounted, eight_sectors-IsWhole}
use embext.Ext2.Sample.{eight_sectors, small_superblock, small_volume}
use embext.Base.{◌*◌}
use embext.Bytes.{AreBytes}
use embext.Ext2.Group.Read.{group_of, with_sysbuf}
use embext.Ext2.Mount.{has_copy, copies, copy_block}
use embext.Ext2.Mount.Copies.{holds_copy, has_copy-is_found, copies-listed}
use embext.Ext2.Bitmap.{change_bit}
use embext.Ext2.Bitmap.Change.{bit_of, Changed, change_bit_lem}
use embext.Ext2.Allocate.{MostFree, none_free, find_most_free}
use embext.Ext2.Allocate.First.{IsFirstMost, find_most_free-IsFirstMost}
use embext.Ext2.BlockMap.{block_of_index}
use embext.Ext2.BlockMap.Tree.{triple, follow, block_of_index-rank}

small_volume-AreApart : AreApart ⦃drv = block_pc⦄ small_volume
small_volume-AreApart = record {
  apart = λ i j b c ne at_i at_j e.
      absurd (omega (arith, (only_copy i b at_i).0, (only_copy j c at_j).0));
}

ext2_flush_superblock-Flushed_example :
    (v' : Volume Pc) × (ext2_flush_superblock ⦃drv = block_pc⦄ small_volume ≡ some (ok tt, v'))
    × Flushed ⦃drv = block_pc⦄ 0 1 small_volume v'
ext2_flush_superblock-Flushed_example =
    ext2_flush_superblock-Flushed ⦃drv = block_pc⦄ small_volume
      (small_volume-IsMounted eight_sectors eight_sectors-IsWhole refl) small_volume-AreApart

find_most_free-IsFirstMost_example :
    (result : MostFree) × (sysbuf : List ℕ) × (find_most_free ⦃drv = block_pc⦄
        (λ bg. bg.bg_free_blocks_count)
        1
        0
        none_free
        small_volume
      ≡ some (result, with_sysbuf small_volume sysbuf))
    × IsFirstMost (λ g. (group_of ⦃drv = block_pc⦄ small_volume g).bg_free_blocks_count) 1 result
    × IsMounted ⦃drv = block_pc⦄ (with_sysbuf small_volume sysbuf)
find_most_free-IsFirstMost_example =
    find_most_free-IsFirstMost ⦃drv = block_pc⦄ (λ bg. bg.bg_free_blocks_count) small_volume
      (small_volume-IsMounted eight_sectors eight_sectors-IsWhole refl)

zeros-AreBytes : (n : ℕ) → AreBytes (replicate n 0)
zeros-AreBytes zero = tt
zeros-AreBytes (suc n) = (omega arith, zeros-AreBytes n)

change_bit_lem_example :
    ((bit_of (replicate 512 0) 13 ≡ true) × (change_bit true 13 (replicate 512 0) ≡ some failed))
    ⊎ ((bit_of (replicate 512 0) 13 ≡ false)
        × (after : List ℕ) × (change_bit true 13 (replicate 512 0) ≡ some (ok after))
        × Changed true 13 (replicate 512 0) after
        × (change_bit false 13 after ≡ some (ok (replicate 512 0))))
change_bit_lem_example = change_bit_lem true 13 (replicate 512 0) refl (zeros-AreBytes 512)

copies-listed_example :
    (blocks : List ℕ) × (copies small_superblock 1 true 30 ≡ some (length blocks, blocks))
    × ((b : ℕ)
        → ((k : ℕ) × (get_elem? blocks k ≡ some b)) ↔ (
            (g : ℕ) × (g < 30)
            × (holds_copy true g ≡ true)
            × (b ≡ copy_block small_superblock 1 g)))
copies-listed_example = copies-listed small_superblock 1 true 30

-- 27 is a power of 3, and the group 27 has a copy.
has_copy-is_found_example : has_copy 27 ≡ some false
has_copy-is_found_example = has_copy-is_found 27

block_of_index-rank_example :
    block_of_index ⦃drv = block_pc⦄ 256 (12 + 256 + 256 * 256 + ((1 * 256 + 2) * 256 + 3))
    ≡ follow ⦃drv = block_pc⦄ (triple 1 2 3)
block_of_index-rank_example =
    block_of_index-rank ⦃drv = block_pc⦄ 256 (triple 1 2 3) (omega arith) (omega arith)
      (omega arith, omega arith, omega arith)
