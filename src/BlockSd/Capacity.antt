-- ===== src/BlockSd/Capacity.antt =====
-- The size of a card from its CSD register.
use embext.Base.{ℕ, ◌+◌, ◌-◌, ◌*◌, ◌/◌, ◌%◌, ◌^◌, ◌<◌, ◌≤◌, ◌≡◌, refl, arith, some, true, false}
use embext.Base.{
  List, [], ◌∷◌, length, replicate, ◌==◌, if◌then◌else◌, eq→==, get_or, drop, ap, Bool-cases, inl,
  inr, ==_iff, zero, suc,
}
use mathlib.Core.Path.{subst}
use embext.Driver.{ok}
use embext.Ext2.State.{u16, u32}
use embext.BlockSd.{Board, Sd, SdCard}
use embext.BlockSd.Reset.{protect, read_csd}
use embext.BlockSd.Exchange.{exchange}
use embext.Bytes.{AreBytes}
use embext.BlockSd.Csd.{hc_card, sc_card, hc, sc, next, taken, guarded}
use native.Mathlib.Nat.{mul-le-mul, pow-le-pow_right}

-- The number that the bytes of a register stand for, the highest first.
abbrev pub register : ℕ → List ℕ → ℕ
register high [] = high
register high (b ∷ bs) = register (high * 256 + b) bs

-- `w` bits of a register from bit `lo` on.
abbrev pub field : List ℕ → ℕ → ℕ → ℕ
field csd lo w = register 0 csd / 2 ^ lo % 2 ^ w

pub protect-size : (c : ℕ) (card : SdCard) → (protect c card).size ≡ card.size
protect-size c card = ground arith

pub protect-read_only :
    (c : ℕ) (card : SdCard)
    → (protect c card).read_only ≡ (if c / 16 % 4 == 0 then card.read_only else 1)
protect-read_only c card = ground arith

-- The arithmetic of the first layout does not wrap.
unwrapped :
    (c p q : ℕ) → c < 4096 → p ≤ 512 → q ≤ 64 → u32 (u32 (u32 (c + 1) * p) * q) ≡ (c + 1) * p * q
unwrapped c p q cl pl ql =
    let r : (c + 1) * p ≤ 4096 * 512 =
      mul-le-mul {n₁ = c + 1} {m₁ = p} {n₂ = 4096} {m₂ = 512} (omega (arith, cl)) pl in
    let t : (c + 1) * p * q ≤ 2097152 * 64 =
      mul-le-mul {n₁ = (c + 1) * p} {m₁ = q} {n₂ = 2097152} {m₂ = 64} r ql in
    let e : u32 (c + 1) ≡ c + 1 = omega (arith, cl) in
    let e' : u32 ((c + 1) * p) ≡ (c + 1) * p = omega (arith, r) in
    let e'' : u32 ((c + 1) * p * q) ≡ (c + 1) * p * q = omega (arith, t) in rw (e, e', e'') refl

product :
    (c m bl : ℕ)
    → c < 4096
    → m < 8
    → bl < 16
    → u32 (u32 (u32 (c + 1) * 2 ^ (m + 2)) * 2 ^ (bl - 9)) ≡ (c + 1) * 2 ^ (m + 2) * 2 ^ (bl - 9)
product c m bl cl ml bll =
    unwrapped c (2 ^ (m + 2)) (2 ^ (bl - 9)) cl
      (pow-le-pow_right {n = 2} (omega arith) {i = m + 2} {j = 9} (omega (arith, ml)))
      (pow-le-pow_right {n = 2} (omega arith) {i = bl - 9} {j = 6} (omega (arith, bll)))

-- The number of a card's blocks of 512 bytes: (C_SIZE + 1) * 1024 in the second layout, with the
-- lower 20 bits of C_SIZE from bit 48; in the first (C_SIZE + 1) * 2^(C_SIZE_MULT + 2) *
-- 2^READ_BL_LEN / 512, with 12 bits from bit 62, 3 from bit 47 and 4 from bit 80.
abbrev pub card_blocks : List ℕ → ℕ
card_blocks csd =
    if field csd 126 1 == 1
    then (field csd 48 20 + 1) * 1024
    else (field csd 62 12 + 1) * 2 ^ (field csd 47 3 + 2) * 2 ^ (field csd 80 4 - 9)

-- The first `n` bytes, one by one.
abbrev listed : ℕ → List ℕ → List ℕ
listed zero csd = []
listed (suc n) csd = get_or csd 0 0 ∷ listed n (drop 1 csd)

listed_all : (n : ℕ) (csd : List ℕ) → length csd ≡ n → listed n csd ≡ csd
listed_all zero [] e = refl
listed_all zero (b ∷ bs) e = absurd (omega (arith, e))
listed_all (suc n) [] e = absurd (omega (arith, e))
listed_all (suc n) (b ∷ bs) e = ap (λ cs. b ∷ cs) (listed_all n bs (omega (arith, e)))

module _ ⦃board : Board⦄ where
  -- The register is read, and gives the card this size.
  abbrev pub IsReadAs : Sd board.Bus → board.Bus → List ℕ → ℕ → Type 0
  IsReadAs s bus csd size =
      (card : SdCard) × (read_csd s ≡ some (ok tt, record { bus = bus; card = card }))
      × (card.size ≡ size)
      × (card.read_only ≡ (if field csd 12 2 == 0 then s.card.read_only else 1))

  abbrev IsReadRight : Sd board.Bus → board.Bus → List ℕ → Type 0
  IsReadRight s bus csd =
      AreBytes csd
      → exchange (replicate 16 255) s.bus ≡ (csd, bus)
      → (field csd 126 1 ≡ 1 → IsReadAs s bus csd ((field csd 48 20 + 1) * 1024))
        × (field csd 126 1 ≡ 0
            → 9 ≤ field csd 80 4
            → IsReadAs s bus csd
                ((field csd 62 12 + 1) * 2 ^ (field csd 47 3 + 2) * 2 ^ (field csd 80 4 - 9)))

  bytes :
      (b0 b1 b2 b3 b4 b5 b6 b7 b8 b9 b10 b11 b12 b13 b14 b15 : ℕ) (s : Sd board.Bus)
      (bus : board.Bus)
      → IsReadRight s bus
          (b0 ∷ b1 ∷ b2 ∷ b3 ∷ b4 ∷ b5 ∷ b6 ∷ b7 ∷ b8 ∷ b9 ∷ b10 ∷ b11 ∷ b12 ∷ b13 ∷ b14 ∷ b15 ∷ [])
  unfolding read_csd
  bytes b0 b1 b2 b3 b4 b5 b6 b7 b8 b9 b10 b11 b12 b13 b14 b15 s bus are h =
      let csd =
        b0 ∷ b1 ∷ b2 ∷ b3 ∷ b4 ∷ b5 ∷ b6 ∷ b7 ∷ b8 ∷ b9 ∷ b10 ∷ b11 ∷ b12 ∷ b13 ∷ b14 ∷ b15 ∷ [] in
      (
        λ layout.
            let second : (b0 / 64 % 2 == 1) ≡ true =
              eq→== (b0 / 64 % 2) 1 (omega (arith, layout)) in
            let c_size : field csd 48 20 ≡ b7 % 16 * 2 ^ 16 + b8 * 2 ^ 8 + b9 =
              omega (arith, are) in
            let bits : field csd 12 2 ≡ b14 / 16 % 4 = omega (arith, are) in
            (
              hc_card b7 b8 b9 b14 s.card,
              (next b0 _
                    (taken _ second (hc b1 b2 b3 b4 b5 b6 b7 b8 b9 b10 b11 b12 b13 b14 b15))).says
                  s bus h,
              rw (protect-size, c_size) (omega (arith, are)),
              rw bits (protect-read_only b14 _),
            ),
        λ layout le.
            let first : (b0 / 64 % 2 == 1) ≡ false = ground (arith, layout) in
            let bl : field csd 80 4 ≡ b5 % 16 = omega (arith, are) in
            let m : field csd 47 3 ≡ u16 (b9 * 2 + b10 / 2 ^ 7) % 8 = omega (arith, are) in
            let c_size : field csd 62 12
                ≡ u32 (u32 (b6 % 4 * 2 ^ 10 + b7 * 2 ^ 2) + b8 / 2 ^ 6 % 4) =
              omega (arith, are) in
            let bits : field csd 12 2 ≡ b14 / 16 % 4 = omega (arith, are) in
            (
              sc_card b5 b6 b7 b8 b9 b10 b14 s.card,
              (next b0 _ (
                    guarded _ first
                      (sc b1 b2 b3 b4 b5 b6 b7 b8 b9 b10 b11 b12 b13 b14 b15 (rw bl at le)))).says
                  s bus h,
              rw (protect-size, c_size, m, bl)
                  (product _ _ _ (omega (arith, are)) (omega arith) (omega arith)),
              rw bits (protect-read_only b14 _),
            ),
      )

  read_right :
      (csd : List ℕ) (s : Sd board.Bus) (bus : board.Bus) → length csd ≡ 16 → IsReadRight s bus csd
  read_right csd s bus sized =
      subst (IsReadRight s bus) (listed_all 16 csd sized)
        (bytes _ _ _ _ _ _ _ _ _ _ _ _ _ _ _ _ s bus)

  -- The CSD register, against its bits as the SD specification numbers them (`card_blocks`). When
  -- the bus answers 16 idle bytes by the 16 bytes of the register, whose READ_BL_LEN is at least 9
  -- if it has the first layout (bit 126 is 0), `read_csd` has sent just these, succeeds, and sets
  -- the size to the number of blocks; the card is marked read-only if one of its bits 12 and 13 is
  -- set, and stays as it was otherwise. The code keeps 20 of the 22 bits of C_SIZE.
  pub read_csd-card_blocks :
      (csd : List ℕ) (s : Sd board.Bus) (bus : board.Bus)
      → length csd ≡ 16
      → AreBytes csd
      → (field csd 126 1 ≡ 0 → 9 ≤ field csd 80 4)
      → exchange (replicate 16 255) s.bus ≡ (csd, bus)
      → IsReadAs s bus csd (card_blocks csd)
  read_csd-card_blocks csd s bus sized are long h =
      let (second, first) = read_right csd s bus sized are h in
      elim (Bool-cases (field csd 126 1 == 1)) [
        | inl e ↦ rw e (second ((==_iff (field csd 126 1) 1).0 e))
        | inr e ↦
            let none : field csd 126 1 ≡ 0 = ground (arith, e) in rw e (first none (long none))
      ]
