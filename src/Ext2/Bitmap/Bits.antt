-- ===== src/Ext2/Bitmap/Bits.antt =====
-- The bit operations on a byte, checked at every byte and bit.
use native.Mathlib.Decide.{ℕ_discrete}
use embext.Base.{
  ◌+◌, ◌≤◌, ℕ, zero, suc, ◌<◌, ◌≡◌, refl, Bool, true, false, ◌&&◌, ◌||◌, not, arith, ◌≢◌,
}
use embext.Base.{◌==◌, ltb}
use embext.Ext2.Bitmap.{test_bit, set_bit, clear_bit}

-- A test holds of each of the `count` numbers from `start` on.
holds_from : (start count : ℕ) → (ℕ → Bool) → Bool
holds_from start zero test = true
holds_from start (suc count) test = holds_from (start + 1) count test && test start

holds_from_at :
    (count start : ℕ) (test : ℕ → Bool) (value : ℕ)
    → holds_from start count test ≡ true
    → start ≤ value
    → value < start + count
    → test value ≡ true
unfolding holds_from
holds_from_at zero start test value all from to = absurd (omega arith)
holds_from_at (suc count) start test value all from to = elim (ℕ_discrete start value) [
  | yes e ↦ ground (arith, e)
  | no ne ↦ ground (arith, ne, holds_from_at count (start + 1) test value)
]

holds_below : (count : ℕ) → (ℕ → Bool) → Bool
unfolding holds_from
holds_below count test = holds_from 0 count test

holds_below_at :
    (count : ℕ) (test : ℕ → Bool) (value : ℕ)
    → holds_below count test ≡ true
    → value < count
    → test value ≡ true
unfolding holds_below
holds_below_at count test value all to =
    holds_from_at count 0 test value all (omega arith) (omega arith)

all_bits_sound :
    (p : ℕ → ℕ → Bool) (byte bit : ℕ)
    → holds_below 256 (λ x. holds_below 8 (p x)) ≡ true
    → byte < 256
    → bit < 8
    → p byte bit ≡ true
all_bits_sound p byte bit h byte_lt bit_lt =
    holds_below_at 8 (p byte) bit (holds_below_at 256 (λ x. holds_below 8 (p x)) byte h byte_lt)
      bit_lt

abbrev same : Bool → Bool → Bool
same true b = b
same false b = not b

same→eq : (a b : Bool) → same a b ≡ true → a ≡ b
same→eq a b h = ground arith

-- What setting and clearing a bit does to it and to the byte.
abbrev law : ℕ → ℕ → Bool
law byte bit =
    test_bit (set_bit byte bit) bit
    && not (test_bit (clear_bit byte bit) bit)
    && ltb (set_bit byte bit) 256
    && ltb (clear_bit byte bit) 256
    && (test_bit byte bit || clear_bit (set_bit byte bit) bit == byte)
    && (not (test_bit byte bit) || set_bit (clear_bit byte bit) bit == byte)

law_table : holds_below 256 (λ x. holds_below 8 (law x)) ≡ true
unfolding holds_below test_bit set_bit clear_bit
law_table = refl

-- What they do to another bit.
abbrev other_law : ℕ → ℕ → ℕ → Bool
other_law other byte bit =
    other == bit
    || same (test_bit (set_bit byte bit) other) (test_bit byte other)
      && same (test_bit (clear_bit byte bit) other) (test_bit byte other)

other_table :
    holds_below 8 (λ other. holds_below 256 (λ x. holds_below 8 (other_law other x))) ≡ true
unfolding holds_below test_bit set_bit clear_bit
other_table = refl

pub record BitLaws (byte bit : ℕ) : Type 0 where
  pub set_test : test_bit (set_bit byte bit) bit ≡ true
  pub clear_test : test_bit (clear_bit byte bit) bit ≡ false
  pub set_lt : set_bit byte bit < 256
  pub clear_lt : clear_bit byte bit < 256
  pub clear_set : test_bit byte bit ≡ false → clear_bit (set_bit byte bit) bit ≡ byte
  pub set_clear : test_bit byte bit ≡ true → set_bit (clear_bit byte bit) bit ≡ byte

pub bit_laws : (byte bit : ℕ) → byte < 256 → bit < 8 → BitLaws byte bit
bit_laws byte bit byte_lt bit_lt =
    ground (arith, all_bits_sound law byte bit law_table byte_lt bit_lt)

pub other_bit_laws :
    (byte bit other : ℕ)
    → byte < 256
    → bit < 8
    → other < 8
    → other ≢ bit
    → (test_bit (set_bit byte bit) other ≡ test_bit byte other)
      × (test_bit (clear_bit byte bit) other ≡ test_bit byte other)
other_bit_laws byte bit other byte_lt bit_lt other_lt ne = ground (
  arith,
  all_bits_sound (other_law other) byte bit
      (holds_below_at 8 (λ o. holds_below 256 (λ x. holds_below 8 (other_law o x))) other
        other_table other_lt)
      byte_lt bit_lt,
)
