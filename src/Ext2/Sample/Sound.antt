-- ===== src/Ext2/Sample/Sound.antt =====
-- The small volume on each of the sample devices.
use embext.Base.{ℕ, zero, suc, ◌≡◌, ◌≤◌, refl, sym, arith, some, [], ◌∷◌, get_elem?}
use embext.BlockPc.{Pc, block_get_volume_size}
use embext.BlockPc.Laws.{IsWhole, block_pc}
use embext.Ext2.State.{ext2_block_size}
use embext.Ext2.Group.Mounted.{IsMounted}
use embext.Ext2.Sample.{small_volume, eight_sectors, table_device}

pub eight_sectors-IsWhole : IsWhole eight_sectors
eight_sectors-IsWhole = record { sized = refl; whole = refl; small = omega arith }

pub table_device-IsWhole : IsWhole table_device
table_device-IsWhole = record { sized = refl; whole = refl; small = omega arith }

pub only_copy : (i b : ℕ) → get_elem? (1 ∷ []) i ≡ some b → (i ≡ 0) × (b ≡ 1)
only_copy zero b at = (refl, sym (ground (arith, at)))
only_copy (suc i) b at = absurd (ground (arith, at))

pub large_enough-IsMounted :
    (d : Pc)
    → IsWhole d
    → 4096 ≤ d.block_fs_size
    → IsMounted ⦃drv = block_pc⦄ (record small_volume { device = d })
unfolding ext2_block_size block_get_volume_size
large_enough-IsMounted d whole sized = record {
  ready = whole;
  sysbuf_sized = refl;
  superblock_fits = omega arith;
  copies_listed = refl;
  primary_inside = λ g lt. omega (arith, sized, whole.small);
  tables_inside = λ i b g at lt. rw (only_copy i b at).1 (omega (arith, lt, sized, whole.small));
  copies_inside = λ i b at. rw (only_copy i b at).1 (omega (arith, sized, whole.small));
}

pub small_volume-IsMounted :
    (d : Pc)
    → IsWhole d
    → d.block_fs_size ≡ 4096
    → IsMounted ⦃drv = block_pc⦄ (record small_volume { device = d })
small_volume-IsMounted d whole sized = large_enough-IsMounted d whole (omega (arith, sized))
