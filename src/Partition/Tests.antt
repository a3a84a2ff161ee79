-- ===== src/Partition/Tests.antt =====
-- Runs, and the theorems at concrete tables.
use embext.Base.{◌+◌, ◌^◌, ◌≤◌, ◌<◌, ◌≡◌, ◌↔◌, ◌⊎◌, refl, arith, true, some}
use embext.Base.{List, [], ◌∷◌, ◌++◌, length, replicate}
use embext.Partition.{MbrEntry, Partition, is_valid, read_partition_table}
use embext.Partition.Accepted.{is_valid_iff, AllInside, read_partition_table-AllInside}
use embext.Partition.Table.{IsEntry, table_bytes, accepted}
use embext.Partition.Table.{read_partition_table-table_bytes}

-- A Linux partition of 100 blocks, an empty entry, and one that wraps in 32 bits.
abbrev linux : MbrEntry
linux = record {
  bootable = 0x80;
  chs = 1 ∷ 1 ∷ 0 ∷ [];
  type = 0x83;
  chs_end = 2 ∷ 3 ∷ 4 ∷ [];
  lba_start = 63;
  length = 100;
}

abbrev empty : MbrEntry
empty = record {
  bootable = 0;
  chs = 0 ∷ 0 ∷ 0 ∷ [];
  type = 0;
  chs_end = 0 ∷ 0 ∷ 0 ∷ [];
  lba_start = 0;
  length = 0;
}

abbrev wrapping : MbrEntry
wrapping = record linux { length = 0xffffffff }

linux-IsEntry : IsEntry linux
linux-IsEntry = record { chs_length = refl; chs_end_length = refl; fit = omega arith }

empty-IsEntry : IsEntry empty
empty-IsEntry = record { chs_length = refl; chs_end_length = refl; fit = omega arith }

wrapping-IsEntry : IsEntry wrapping
wrapping-IsEntry = record { chs_length = refl; chs_end_length = refl; fit = omega arith }

is_valid-wrapping : is_valid wrapping 1000 ≡ true
unfolding is_valid
is_valid-wrapping = refl

is_valid_iff_example : (is_valid linux 1000 ≡ true) ↔ (
    (0 < 63)
    × (63 < 1000)
    × (0 < 100)
    × ((63 + 100 ≤ 1000) ⊎ ((2 ^ 32 ≤ 63 + 100) × (63 + 100 ≤ 2 ^ 32 + 1000))))
is_valid_iff_example = is_valid_iff linux 1000 (omega arith) (omega arith) (omega arith)

read_partition_table-AllInside_example :
    (out : List Partition) × (read_partition_table (replicate 512 1) 0x2000000 ≡ some out)
    × AllInside 0x2000000 out
    × (length out ≤ 4)
read_partition_table-AllInside_example =
    read_partition_table-AllInside (replicate 512 1) 0x2000000 refl

read_partition_table-table_bytes_example :
    read_partition_table
      (replicate 446 0xfa ++ table_bytes (linux ∷ empty ∷ wrapping ∷ empty ∷ []) (0x55 ∷ 0xaa ∷ []))
      1000
    ≡ some (accepted 1000 (linux ∷ empty ∷ wrapping ∷ empty ∷ []))
read_partition_table-table_bytes_example =
    read_partition_table-table_bytes (replicate 446 0xfa) (0x55 ∷ 0xaa ∷ []) linux empty wrapping
      empty 1000 refl (linux-IsEntry, (empty-IsEntry, (wrapping-IsEntry, (empty-IsEntry, tt))))
