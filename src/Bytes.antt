-- ===== src/Bytes.antt =====
-- Bytes and packed structs: what a `memcpy` between a struct of src/embext.h (or partition.h) and
-- a disk buffer does on a little-endian machine. A struct is the list of its fields' widths.
pub mod RoundTrip
use embext.Base.{ℕ, zero, suc, ◌+◌, ◌*◌, ◌/◌, ◌%◌, ◌^◌, ◌<◌, List, [], ◌∷◌, ◌++◌, take, drop}

-- The value of an unsigned field from its bytes, lowest first.
unfoldable pub le_decode : List ℕ → ℕ
le_decode [] = 0
le_decode (b ∷ bs) = b + 256 * le_decode bs

-- The `n` bytes of an unsigned field.
unfoldable pub le_encode : ℕ → ℕ → List ℕ
le_encode zero x = []
le_encode (suc n) x = x % 256 ∷ le_encode n (x / 256)

-- The fields of a packed struct, read one after another.
unfoldable pub unpack : List ℕ → List ℕ → List ℕ
unfolding le_decode
unpack [] bs = []
unpack (w ∷ ws) bs = le_decode (take w bs) ∷ unpack ws (drop w bs)

-- The bytes of a packed struct from its fields.
unfoldable pub pack : List ℕ → List ℕ → List ℕ
unfolding le_encode
pack [] vs = []
pack (w ∷ ws) [] = []
pack (w ∷ ws) (v ∷ vs) = le_encode w v ++ pack ws vs

-- The values `vs` fit the fields of widths `ws`, one to one.
abbrev pub Fit : List ℕ → List ℕ → Type 0
Fit [] [] = Unit {0}
Fit [] (v ∷ vs) = ⊥
Fit (w ∷ ws) [] = ⊥
Fit (w ∷ ws) (v ∷ vs) = (v < 256 ^ w) × Fit ws vs

abbrev pub AreBytes : List ℕ → Type 0
AreBytes [] = Unit {0}
AreBytes (b ∷ bs) = (b < 256) × AreBytes bs

abbrev pub sum : List ℕ → ℕ
sum [] = 0
sum (w ∷ ws) = w + sum ws
