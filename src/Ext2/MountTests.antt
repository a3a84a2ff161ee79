-- ===== src/Ext2/MountTests.antt =====
-- The theorems on mounting and unmounting, at a small volume.
use embext.Base.{◌≡◌, refl, arith, some}
use embext.BlockPc.{Pc}
use embext.BlockPc.Laws.{block_pc}
use embext.Ext2.Group.Flush.{AreApart}
use embext.Ext2.Mount.{ext2_umount}
use embext.Ext2.Mount.Cycle.{LeftClean, ext2_umount-LeftClean}
use embext.Ext2.Sample.Sound.{only_copy, small_volume-IsMounted, eight_sectors-IsWhole}
use embext.Ext2.Sample.{small_volume, eight_sectors}

small_volume-AreApart : AreApart ⦃drv = block_pc⦄ small_volume
small_volume-AreApart = record {
  apart = λ i j b c ne at_i at_j e.
      absurd (omega (arith, (only_copy i b at_i).0, (only_copy j c at_j).0));
}

ext2_umount-LeftClean_example :
    (d : Pc) × (ext2_umount ⦃drv = block_pc⦄ small_volume ≡ some d)
    × LeftClean ⦃drv = block_pc⦄ small_volume d
ext2_umount-LeftClean_example =
    ext2_umount-LeftClean ⦃drv = block_pc⦄ small_volume
      (small_volume-IsMounted eight_sectors eight_sectors-IsWhole refl) small_volume-AreApart
