-- ===== src/Bytes/RoundTrip.antt =====
-- Encoding and decoding: one field, and a packed struct.
use mathlib.Core.List.{append_assoc, append-nil}
use native.Mathlib.Nat.{pow-suc}
use embext.Base.{ℕ, zero, suc, ◌+◌, ◌*◌, ◌/◌, ◌%◌, ◌^◌, ◌≤◌, ◌<◌, ◌≡◌, refl, ap, ap₂, arith}
use embext.Base.{List, [], ◌∷◌, ◌++◌, length, take, drop, length-append}
use embext.Base.{take-append_left, drop-append_left, length-take, length-drop, take-add}
use embext.Bytes.{le_decode, le_encode, unpack, pack, Fit, AreBytes, sum}

pub length-le_encode : (n x : ℕ) → length (le_encode n x) ≡ n
unfolding le_encode
length-le_encode zero x = refl
length-le_encode (suc n) x = ap suc (length-le_encode n (x / 256))

pub le_decode-le_encode : (n x : ℕ) → x < 256 ^ n → le_decode (le_encode n x) ≡ x
unfolding le_encode le_decode
le_decode-le_encode zero x h = omega arith
le_decode-le_encode (suc n) x h =
    omega (arith, le_decode-le_encode n (x / 256) (omega (arith, pow-suc 256 n)))

pub le_encode-le_decode : (bs : List ℕ) → AreBytes bs → le_encode (length bs) (le_decode bs) ≡ bs
unfolding le_encode le_decode
le_encode-le_decode [] h = refl
le_encode-le_decode (b ∷ bs) h =
    let low : (b + 256 * le_decode bs) % 256 ≡ b = omega arith in
    let high : (b + 256 * le_decode bs) / 256 ≡ le_decode bs = omega arith in
    rw (low, high) (ap (λ xs. b ∷ xs) (le_encode-le_decode bs h.1))

pub le_decode-lt : (bs : List ℕ) → AreBytes bs → le_decode bs < 256 ^ length bs
unfolding le_decode
le_decode-lt [] h = omega arith
le_decode-lt (b ∷ bs) h = omega (arith, le_decode-lt bs h.1, pow-suc 256 (length bs))

pub length-pack : (ws vs : List ℕ) → Fit ws vs → length (pack ws vs) ≡ sum ws
unfolding pack
length-pack [] vs h = refl
length-pack (w ∷ ws) [] h = absurd h
length-pack (w ∷ ws) (v ∷ vs) h =
    omega (
      arith,
      length-append (le_encode w v) (pack ws vs),
      length-le_encode w v,
      length-pack ws vs h.1,
    )

-- Reading back a struct that was written, whatever bytes follow it.
pub unpack-pack : (ws vs rest : List ℕ) → Fit ws vs → unpack ws (pack ws vs ++ rest) ≡ vs
unfolding unpack pack
unpack-pack [] [] rest h = refl
unpack-pack [] (v ∷ vs) rest h = absurd h
unpack-pack (w ∷ ws) [] rest h = absurd h
unpack-pack (w ∷ ws) (v ∷ vs) rest h =
    let sized : w ≡ length (le_encode w v) = omega (arith, length-le_encode w v) in
    rw
      (
        append_assoc (le_encode w v) (pack ws vs) rest,
        take-append_left w (le_encode w v) (pack ws vs ++ rest) sized,
        drop-append_left w (le_encode w v) (pack ws vs ++ rest) sized,
      )
      (ap₂ ◌∷◌ (le_decode-le_encode w v h.0) (unpack-pack ws vs rest h.1))

pub unpack-pack_self : (ws vs : List ℕ) → Fit ws vs → unpack ws (pack ws vs) ≡ vs
unpack-pack_self ws vs h = rw append-nil at (unpack-pack ws vs [] h)

AreBytes-take : (n : ℕ) (bs : List ℕ) → AreBytes bs → AreBytes (take n bs)
AreBytes-take zero bs h = tt
AreBytes-take (suc n) [] h = tt
AreBytes-take (suc n) (b ∷ bs) h = (h.0, AreBytes-take n bs h.1)

AreBytes-drop : (n : ℕ) (bs : List ℕ) → AreBytes bs → AreBytes (drop n bs)
AreBytes-drop zero bs h = h
AreBytes-drop (suc n) [] h = tt
AreBytes-drop (suc n) (b ∷ bs) h = AreBytes-drop n bs h.1

-- Writing back the fields of a struct that was read gives the bytes that it was read from.
pub pack-unpack :
    (ws bs : List ℕ) → AreBytes bs → sum ws ≤ length bs → pack ws (unpack ws bs) ≡ take (sum ws) bs
unfolding unpack pack
pack-unpack [] bs h fits = refl
pack-unpack (w ∷ ws) bs h fits =
    let sized : length (take w bs) ≡ w = omega (arith, length-take w bs) in
    let field : le_encode w (le_decode (take w bs)) ≡ take w bs =
      rw sized at (le_encode-le_decode (take w bs) (AreBytes-take w bs h)) in
    rw (
      take-add w (sum ws) bs,
      field,
      pack-unpack ws (drop w bs) (AreBytes-drop w bs h) (omega (arith, length-drop w bs)),
    )

-- What is read from bytes fits the fields.
pub unpack-Fit : (ws bs : List ℕ) → AreBytes bs → sum ws ≤ length bs → Fit ws (unpack ws bs)
unfolding unpack
unpack-Fit [] bs h fits = tt
unpack-Fit (w ∷ ws) bs h fits =
    let sized : length (take w bs) ≡ w = omega (arith, length-take w bs) in
    (
      rw sized at (le_decode-lt (take w bs) (AreBytes-take w bs h)),
      unpack-Fit ws (drop w bs) (AreBytes-drop w bs h) (omega (arith, length-drop w bs)),
    )
