-- ===== src/Ext2/Bitmap/Change.antt =====
-- One bit of a bitmap sector, as `ext2_change_allocated` changes it.
use native.Mathlib.Decide.{ℕ_discrete}
use embext.Base.{◌⊎◌, inl, inr, refl}
use embext.Base.{ℕ, zero, suc, ◌%◌, ◌<◌, ◌≡◌, ◌≢◌, sym, ap, ◌∙◌, Bool, true, false, not, arith}
use embext.Base.{some, List, [], ◌∷◌, length, get_or, set, length-set, get_elem?-eq-get_or}
use embext.Base.{get_or-set_self, get_or-set_ne, set-set, set-get_or, if◌then◌else◌}
use embext.Bytes.{AreBytes}
use embext.Driver.{ok, failed}
use embext.Ext2.Bitmap.{test_bit, set_bit, clear_bit, byte_index, change_bit}
use embext.Ext2.Bitmap.Bits.{BitLaws, bit_laws, other_bit_laws}

-- Bit `n` of a bitmap, in the sector of the bitmap that holds it.
abbrev pub bit_of : List ℕ → ℕ → Bool
bit_of sysbuf n = test_bit (get_or sysbuf (byte_index n) 0) (n % 8)

-- `after` is `before` with bit `n` equal to `value`, and every other bit of the sector as it was.
pub record Changed (value : Bool) (n : ℕ) (before after : List ℕ) : Type 0 where
  pub sized : length after ≡ 512
  pub bytes : AreBytes after
  pub changed : bit_of after n ≡ value
  pub others : (m : ℕ) → m % 4096 ≢ n % 4096 → bit_of after m ≡ bit_of before m

get_or-lt : (bs : List ℕ) (i : ℕ) → AreBytes bs → get_or bs i 0 < 256
get_or-lt [] i h = omega arith
get_or-lt (b ∷ bs) zero h = h.0
get_or-lt (b ∷ bs) (suc i) h = get_or-lt bs i h.1

AreBytes-set : (bs : List ℕ) (i v : ℕ) → AreBytes bs → v < 256 → AreBytes (set bs i v)
AreBytes-set [] i v h lt = h
AreBytes-set (b ∷ bs) zero v h lt = (lt, h.1)
AreBytes-set (b ∷ bs) (suc i) v h lt = (h.0, AreBytes-set bs i v h.1 lt)

-- The byte with the bit made equal to a value.
abbrev new_byte_of : ℕ → ℕ → Bool → ℕ
new_byte_of byte bit value = if value then set_bit byte bit else clear_bit byte bit

module _ (n : ℕ) (sysbuf : List ℕ) (sized : length sysbuf ≡ 512) (bytes : AreBytes sysbuf) where
  abbrev byte : ℕ
  byte = get_or sysbuf (byte_index n) 0

  abbrev with_byte : ℕ → List ℕ
  with_byte v = set sysbuf (byte_index n) v

  in_sector : byte_index n < length sysbuf
  in_sector = omega arith

  laws : BitLaws byte (n % 8)
  laws = bit_laws byte (n % 8) (get_or-lt sysbuf (byte_index n) bytes) (omega arith)

  -- The new value of the byte.
  abbrev new_byte : Bool → ℕ
  new_byte value = new_byte_of byte (n % 8) value

  change_bit-cases :
      (value : Bool)
      → change_bit value n sysbuf ≡ (
          if test_bit byte (n % 8)
          then if value then some failed else some (ok (with_byte (new_byte false)))
          else if value
          then some (ok (with_byte (new_byte true)))
          else some failed)
  unfolding change_bit
  change_bit-cases value = rw (get_elem?-eq-get_or sysbuf (byte_index n) 0 in_sector, change_bit)

  change_bit-same :
      (value : Bool) → bit_of sysbuf n ≡ value → change_bit value n sysbuf ≡ some failed
  change_bit-same value e = change_bit-cases value ∙ ground (arith, e)

  change_bit-opposite :
      (value : Bool)
      → bit_of sysbuf n ≡ not value
      → change_bit value n sysbuf ≡ some (ok (with_byte (new_byte value)))
  change_bit-opposite true e = change_bit-cases true ∙ ground (arith, e)
  change_bit-opposite false e = change_bit-cases false ∙ ground (arith, e)

  new_byte-lt : (value : Bool) → new_byte value < 256
  new_byte-lt true = laws.set_lt
  new_byte-lt false = laws.clear_lt

  new_byte_test : (value : Bool) → test_bit (new_byte value) (n % 8) ≡ value
  new_byte_test true = laws.set_test
  new_byte_test false = laws.clear_test

  new_byte_other :
      (value : Bool) (other : ℕ)
      → other < 8
      → other ≢ n % 8
      → test_bit (new_byte value) other ≡ test_bit byte other
  new_byte_other true other lt ne =
      (other_bit_laws byte (n % 8) other (get_or-lt sysbuf (byte_index n) bytes) (omega arith) lt
        ne).0
  new_byte_other false other lt ne =
      (other_bit_laws byte (n % 8) other (get_or-lt sysbuf (byte_index n) bytes) (omega arith) lt
        ne).1

  other_bit :
      (value : Bool) (m : ℕ)
      → m % 4096 ≢ n % 4096
      → bit_of (with_byte (new_byte value)) m ≡ bit_of sysbuf m
  other_bit value m ne = elim (ℕ_discrete (byte_index m) (byte_index n)) [
    | yes e ↦
        rw (e, get_or-set_self sysbuf (byte_index n) (new_byte value) 0 in_sector)
          (new_byte_other value (m % 8) (omega arith) (omega arith))
    | no apart ↦
        rw (
          get_or-set_ne sysbuf (byte_index n) (byte_index m) (new_byte value) 0
            (λ e. apart (sym e)))
  ]

  with_byte-Changed : (value : Bool) → Changed value n sysbuf (with_byte (new_byte value))
  with_byte-Changed value = record {
    sized = length-set sysbuf (byte_index n) (new_byte value) ∙ sized;
    bytes = AreBytes-set sysbuf (byte_index n) (new_byte value) bytes (new_byte-lt value);
    changed =
        rw (get_or-set_self sysbuf (byte_index n) (new_byte value) 0 in_sector)
          (new_byte_test value);
    others = λ m ne. other_bit value m ne;
  }

  -- The new byte is the old one but for the bit.
  new_byte_back :
      (value : Bool)
      → test_bit byte (n % 8) ≡ not value
      → new_byte_of (new_byte value) (n % 8) (not value) ≡ byte
  new_byte_back true clear = laws.clear_set clear
  new_byte_back false set_before = laws.set_clear set_before

  -- Changing the bit back writes the old byte where the new one stands.
  restored :
      (value : Bool)
      → bit_of sysbuf n ≡ not value
      → set
          (with_byte (new_byte value))
          (byte_index n)
          (new_byte_of (get_or (with_byte (new_byte value)) (byte_index n) 0) (n % 8) (not value))
        ≡ sysbuf
  restored value opposite =
      rw
        (
          get_or-set_self sysbuf (byte_index n) (new_byte value) 0 in_sector,
          set-set sysbuf (byte_index n) (new_byte value)
              (new_byte_of (new_byte value) (n % 8) (not value)),
          new_byte_back value opposite,
        )
        (set-get_or sysbuf (byte_index n) 0)

-- The two cases of a change.
pub change_bit_branches :
    (value : Bool) (n : ℕ) (sysbuf : List ℕ)
    → length sysbuf ≡ 512
    → AreBytes sysbuf
    → (bit_of sysbuf n ≡ value → change_bit value n sysbuf ≡ some failed)
      × (bit_of sysbuf n ≡ not value
          → (after : List ℕ) × (change_bit value n sysbuf ≡ some (ok after))
            × Changed value n sysbuf after
            × (change_bit (not value) n after ≡ some (ok sysbuf)))
change_bit_branches value n sysbuf sized bytes = (
  change_bit-same n sysbuf sized bytes value,
  λ opposite. (
    changed,
    change_bit-opposite n sysbuf sized bytes value opposite,
    after,
    change_bit-opposite n changed after.sized after.bytes (not value)
          (after.changed ∙ sym (not-not value))
        ∙ ap (λ l. some (ok l)) (restored n sysbuf sized bytes value opposite),
  ),
)
  where
    changed : List ℕ
    changed = with_byte n sysbuf sized bytes (new_byte n sysbuf sized bytes value)

    after : Changed value n sysbuf changed
    after = with_byte-Changed n sysbuf sized bytes value

    not-not : (b : Bool) → not (not b) ≡ b
    not-not b = ground arith

-- A bit that has the value already is refused. Otherwise exactly that bit of the sector is changed
-- to the value, and the opposite change restores the sector.
pub change_bit_lem :
    (value : Bool) (n : ℕ) (sysbuf : List ℕ)
    → length sysbuf ≡ 512
    → AreBytes sysbuf
    → ((bit_of sysbuf n ≡ value) × (change_bit value n sysbuf ≡ some failed))
      ⊎ ((bit_of sysbuf n ≡ not value)
          × (after : List ℕ) × (change_bit value n sysbuf ≡ some (ok after))
          × Changed value n sysbuf after
          × (change_bit (not value) n after ≡ some (ok sysbuf)))
change_bit_lem value n sysbuf sized bytes =
    let cases = change_bit_branches value n sysbuf sized bytes in
    elim (same_or_not (bit_of sysbuf n) value) [
      | inl same ↦ inl (same, cases.0 same)
      | inr opposite ↦
          let (after, changes, changed, undone) = cases.1 opposite in
          inr (opposite, after, changes, changed, undone)
    ]
  where
    same_or_not : (a b : Bool) → (a ≡ b) ⊎ (a ≡ not b)
    same_or_not true true = inl refl
    same_or_not true false = inr refl
    same_or_not false true = inr refl
    same_or_not false false = inl refl
