-- ===== src/Partition/Table.antt =====
-- The bytes of a partition table, and what `read_partition_table` makes of them.
use mathlib.Core.List.{append-nil, append_assoc}
use embext.Base.{ℕ, ◌+◌, ◌*◌, ◌≡◌, refl, sym, ap, arith}
use embext.Base.{List, [], ◌∷◌, ◌++◌, some, length, length-append, slice-append}
use embext.Base.{if◌then◌else◌, Bool-cases, inl, inr}
use embext.Bytes.{pack, Fit}
use embext.Bytes.RoundTrip.{length-pack, unpack-pack_self}
use embext.Partition.{MbrEntry, mbr_entry_widths, mbr_entry_of, Partition, partition_of, kept_with}
use embext.Partition.{is_valid, entry_at, scan, read_partition_table}

-- The fields of an entry in the order of the struct.
abbrev pub values_of : MbrEntry → List ℕ
values_of e = e.bootable ∷ (e.chs ++ (e.type ∷ (e.chs_end ++ (e.lba_start ∷ e.length ∷ []))))

-- An entry that its sixteen bytes can hold.
pub record IsEntry (e : MbrEntry) : Type 0 where
  pub chs_length : length e.chs ≡ 3
  pub chs_end_length : length e.chs_end ≡ 3
  pub fit : Fit mbr_entry_widths (values_of e)

abbrev pub entry_bytes : MbrEntry → List ℕ
entry_bytes e = pack mbr_entry_widths (values_of e)

abbrev pub AllEntries : List MbrEntry → Type 0
AllEntries [] = Unit {0}
AllEntries (e ∷ es) = IsEntry e × AllEntries es

-- The bytes of a table, followed by `rest`.
abbrev pub table_bytes : List MbrEntry → List ℕ → List ℕ
table_bytes [] rest = rest
table_bytes (e ∷ es) rest = entry_bytes e ++ table_bytes es rest

-- The accepted entries of a table, in its order.
abbrev pub accepted : ℕ → List MbrEntry → List Partition
accepted volume_size [] = []
accepted volume_size (e ∷ es) =
    if is_valid e volume_size
    then partition_of e ∷ accepted volume_size es
    else accepted volume_size es

three_elements : (xs : List ℕ) → length xs ≡ 3 → (a b c : ℕ) × (xs ≡ a ∷ b ∷ c ∷ [])
three_elements [] h = absurd (omega arith)
three_elements (a ∷ []) h = absurd (omega arith)
three_elements (a ∷ b ∷ []) h = absurd (omega arith)
three_elements (a ∷ b ∷ c ∷ []) h = (a, b, c, refl)
three_elements (a ∷ b ∷ c ∷ d ∷ xs) h = absurd (omega arith)

mbr_entry_of-values_of : (e : MbrEntry) → IsEntry e → mbr_entry_of (values_of e) ≡ e
mbr_entry_of-values_of e is =
    rw ((three_elements e.chs is.chs_length).3, (three_elements e.chs_end is.chs_end_length).3)

entry_at-append :
    (boot rest : List ℕ) (e : MbrEntry) (i : ℕ)
    → IsEntry e
    → length boot ≡ 446 + 16 * i
    → entry_at (boot ++ (entry_bytes e ++ rest)) i ≡ some e
unfolding entry_at
entry_at-append boot rest e i is at =
    rw
      (
        slice-append boot (entry_bytes e) rest (446 + 16 * i) 16 (sym at)
            (sym (length-pack mbr_entry_widths (values_of e) is.fit)),
        unpack-pack_self mbr_entry_widths (values_of e) is.fit,
      )
      (ap some (mbr_entry_of-values_of e is))

kept_with-append :
    (e : MbrEntry) (es : List MbrEntry) (volume_size : ℕ) (retval : List Partition)
    → kept_with e volume_size retval ++ accepted volume_size es
      ≡ retval ++ accepted volume_size (e ∷ es)
kept_with-append e es volume_size retval = elim (Bool-cases (is_valid e volume_size)) [
  | inl ok ↦ rw ok (append_assoc retval (partition_of e ∷ []) (accepted volume_size es))
  | inr bad ↦ rw bad
]

scan-table :
    (es : List MbrEntry) (boot rest : List ℕ) (i volume_size : ℕ) (retval : List Partition)
    → AllEntries es
    → length boot ≡ 446 + 16 * i
    → scan (length es) i (boot ++ table_bytes es rest) volume_size retval
      ≡ some (retval ++ accepted volume_size es)
unfolding scan
scan-table [] boot rest i volume_size retval all at = ap some (sym (append-nil retval))
scan-table (e ∷ es) boot rest i volume_size retval all at =
    let further : length (boot ++ entry_bytes e) ≡ 446 + 16 * (i + 1) = omega (
      arith,
      length-append boot (entry_bytes e),
      length-pack mbr_entry_widths (values_of e) all.0.fit,
    ) in
    rw
      (
        entry_at-append boot (table_bytes es rest) e i all.0 at,
        ← append_assoc boot (entry_bytes e) (table_bytes es rest),
        scan-table es (boot ++ entry_bytes e) rest (i + 1) volume_size
            (kept_with e volume_size retval) all.1 further,
      )
      (ap some (kept_with-append e es volume_size retval))

-- Of a record whose table holds four entries, exactly the accepted ones are returned, in the
-- order of the table, whatever the boot code before it and the bytes behind it.
pub read_partition_table-table_bytes :
    (boot rest : List ℕ) (e0 e1 e2 e3 : MbrEntry) (volume_size : ℕ)
    → length boot ≡ 446
    → AllEntries (e0 ∷ e1 ∷ e2 ∷ e3 ∷ [])
    → read_partition_table (boot ++ table_bytes (e0 ∷ e1 ∷ e2 ∷ e3 ∷ []) rest) volume_size
      ≡ some (accepted volume_size (e0 ∷ e1 ∷ e2 ∷ e3 ∷ []))
unfolding read_partition_table
read_partition_table-table_bytes boot rest e0 e1 e2 e3 volume_size at all =
    scan-table (e0 ∷ e1 ∷ e2 ∷ e3 ∷ []) boot rest 0 volume_size [] all at
