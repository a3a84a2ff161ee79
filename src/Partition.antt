-- ===== src/Partition.antt =====
-- src/partition.c and src/partition.h: the four primary entries of a master boot record.
pub mod Accepted
pub mod Table
mod Tests
use embext.Base.{ℕ, zero, suc, ◌+◌, ◌*◌, ◌%◌, ◌^◌, Bool, ◌&&◌, Option, some, List, [], ◌∷◌, ◌++◌}
use embext.Base.{ltb, leb, if◌then◌else◌, get_or, take, drop, slice}
use embext.Bytes.{unpack}
use embext.Fault.{◌>>=◌}

abbrev pub partition0start : ℕ
partition0start = 0x1be

-- `mbr_entry`
pub record MbrEntry : Type 0 where
  pub bootable : ℕ
  pub chs : List ℕ
  pub type : ℕ
  pub chs_end : List ℕ
  pub lba_start : ℕ
  pub length : ℕ

abbrev pub mbr_entry_widths : List ℕ
mbr_entry_widths = 1 ∷ 1 ∷ 1 ∷ 1 ∷ 1 ∷ 1 ∷ 1 ∷ 1 ∷ 4 ∷ 4 ∷ []

abbrev pub mbr_entry_of : List ℕ → MbrEntry
mbr_entry_of vs = record {
  bootable = get_or vs 0 0;
  chs = take 3 (drop 1 vs);
  type = get_or vs 4 0;
  chs_end = take 3 (drop 5 vs);
  lba_start = get_or vs 8 0;
  length = get_or vs 9 0;
}

-- `struct partition`
pub record Partition : Type 0 where
  pub start : ℕ
  pub length : ℕ
  pub type : ℕ

-- The test on an entry. The sum of the two `uint32_t` wraps.
pub is_valid : MbrEntry → ℕ → Bool
is_valid entry volume_size =
    ltb entry.lba_start volume_size
    && leb ((entry.lba_start + entry.length) % 2 ^ 32) volume_size
    && ltb 0 entry.lba_start
    && ltb 0 entry.length

abbrev pub partition_of : MbrEntry → Partition
partition_of entry = record { start = entry.lba_start; length = entry.length; type = entry.type }

-- `retval` after the round of one entry.
abbrev pub kept_with : MbrEntry → ℕ → List Partition → List Partition
kept_with entry volume_size retval =
    if is_valid entry volume_size then retval ++ (partition_of entry ∷ []) else retval

-- `entry[i]`, read from the 512 bytes at `mbr`.
pub entry_at : List ℕ → ℕ → Option MbrEntry
entry_at mbr i = do
  bytes ← slice mbr (partition0start + 16 * i) 16
  some (mbr_entry_of (unpack mbr_entry_widths bytes))

-- The loop over `entry`, with the rounds left, and `retval[0..j)` so far.
pub scan : ℕ → ℕ → List ℕ → ℕ → List Partition → Option (List Partition)
scan zero i mbr volume_size retval = some retval
scan (suc left) i mbr volume_size retval = do
  entry ← entry_at mbr i
  scan left (i + 1) mbr volume_size (kept_with entry volume_size retval)

-- The entries kept; their number is what the function returns.
pub read_partition_table : List ℕ → ℕ → Option (List Partition)
read_partition_table mbr volume_size = scan 4 0 mbr volume_size []
