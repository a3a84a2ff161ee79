-- ===== src/Partition/Accepted.antt =====
-- Which entries pass the test, and where the partitions kept lie.
use embext.Base.{◌*◌, refl, take, drop, slice_inside, Bool-cases, length-append, inl, inr}
use embext.Base.{ℕ, zero, suc, ◌+◌, ◌^◌, ◌≤◌, ◌<◌, ◌≡◌, ◌↔◌, ◌⊎◌, true, arith}
use embext.Base.{List, [], ◌∷◌, ◌++◌, some, length}
use embext.Bytes.{unpack}
use embext.Partition.{
  partition0start, mbr_entry_of, mbr_entry_widths, MbrEntry, Partition, partition_of, is_valid,
  kept_with, entry_at, scan, read_partition_table,
}

-- An entry is accepted exactly when it starts inside the volume after block 0, is not empty, and
-- its end is inside the volume or lies from 2^32 up to 2^32 and the volume's size.
pub is_valid_iff :
    (entry : MbrEntry) (volume_size : ℕ)
    → entry.lba_start < 2 ^ 32
    → entry.length < 2 ^ 32
    → volume_size < 2 ^ 32
    → (is_valid entry volume_size ≡ true) ↔ (
        (0 < entry.lba_start)
        × (entry.lba_start < volume_size)
        × (0 < entry.length)
        × ((entry.lba_start + entry.length ≤ volume_size)
            ⊎ ((2 ^ 32 ≤ entry.lba_start + entry.length)
                × (entry.lba_start + entry.length ≤ 2 ^ 32 + volume_size))))
unfolding is_valid
is_valid_iff entry volume_size start_fits length_fits volume_fits = ground arith

-- What the driver may rely on for a partition of a volume of `volume_size` blocks.
pub record IsInside (volume_size : ℕ) (p : Partition) : Type 0 where
  pub after_mbr : 0 < p.start
  pub starts_inside : p.start < volume_size
  pub not_empty : 0 < p.length
  pub ends_inside : p.start + p.length < 2 ^ 32 → p.start + p.length ≤ volume_size

abbrev pub AllInside : ℕ → List Partition → Type 0
AllInside volume_size [] = Unit {0}
AllInside volume_size (p ∷ ps) = IsInside volume_size p × AllInside volume_size ps

partition_of-IsInside :
    (entry : MbrEntry) (volume_size : ℕ)
    → is_valid entry volume_size ≡ true
    → IsInside volume_size (partition_of entry)
unfolding is_valid
partition_of-IsInside entry volume_size ok = ground arith

AllInside-append :
    (volume_size : ℕ) (ps : List Partition) (p : Partition)
    → AllInside volume_size ps
    → IsInside volume_size p
    → AllInside volume_size (ps ++ (p ∷ []))
AllInside-append volume_size [] p all is = (is, tt)
AllInside-append volume_size (q ∷ ps) p all is = (all.0, AllInside-append volume_size ps p all.1 is)

kept_with-AllInside :
    (entry : MbrEntry) (volume_size : ℕ) (retval : List Partition)
    → AllInside volume_size retval
    → AllInside volume_size (kept_with entry volume_size retval)
      × (length (kept_with entry volume_size retval) ≤ length retval + 1)
kept_with-AllInside entry volume_size retval all = elim (Bool-cases (is_valid entry volume_size)) [
  | inl ok ↦ rw ok (
    AllInside-append volume_size retval (partition_of entry) all
        (partition_of-IsInside entry volume_size ok),
    omega (arith, length-append retval (partition_of entry ∷ [])),
  )
  | inr bad ↦ rw bad (all, omega arith)
]

entry_at-inside :
    (mbr : List ℕ) (i : ℕ)
    → length mbr ≡ 512
    → i < 4
    → (entry : MbrEntry) × (entry_at mbr i ≡ some entry)
unfolding entry_at
entry_at-inside mbr i sized lt =
    let bytes = take 16 (drop (partition0start + 16 * i) mbr) in
    (
      mbr_entry_of (unpack mbr_entry_widths bytes),
      rw (slice_inside mbr (partition0start + 16 * i) 16 (omega (arith, sized))),
    )

scan-AllInside :
    (left i : ℕ) (mbr : List ℕ) (volume_size : ℕ) (retval : List Partition)
    → length mbr ≡ 512
    → i + left ≤ 4
    → AllInside volume_size retval
    → (out : List Partition) × (scan left i mbr volume_size retval ≡ some out)
      × AllInside volume_size out
      × (length out ≤ length retval + left)
unfolding scan
scan-AllInside zero i mbr volume_size retval sized le all = (retval, refl, all, omega arith)
scan-AllInside (suc left) i mbr volume_size retval sized le all =
    let (entry, read) = entry_at-inside mbr i sized (omega arith) in
    let (all', longer) = kept_with-AllInside entry volume_size retval all in
    let (out, ran, inside, short) =
      scan-AllInside left (i + 1) mbr volume_size (kept_with entry volume_size retval) sized
        (omega arith) all' in
    (out, rw read ran, inside, omega arith)

-- Of any 512 bytes, valid as a master boot record or not, a list of at most four partitions is
-- returned. Each starts inside the volume behind block 0 and is not empty; if its end does not wrap
-- in 32 bits, it lies inside the volume.
pub read_partition_table-AllInside :
    (mbr : List ℕ) (volume_size : ℕ)
    → length mbr ≡ 512
    → (out : List Partition) × (read_partition_table mbr volume_size ≡ some out)
      × AllInside volume_size out
      × (length out ≤ 4)
unfolding read_partition_table
read_partition_table-AllInside mbr volume_size sized =
    scan-AllInside 4 0 mbr volume_size [] sized (omega arith) tt
