-- ===== src/BlockSd/Csd.antt =====
-- The two layouts of the CSD register, byte by byte.
use embext.Base.{ℕ, ◌+◌, ◌-◌, ◌*◌, ◌/◌, ◌%◌, ◌^◌, ◌≤◌, ◌≡◌, refl, arith, true, false}
use embext.Base.{Bool, List, [], ◌∷◌, ◌++◌, length, replicate, if◌then◌else◌, ltb}
use embext.Driver.{ok}
use embext.Ext2.Monad.{M, ◌>>=◌}
use embext.Ext2.State.{u16, u32}
use embext.BlockSd.{Board, Sd, SdCard, sd_card_sc, sd_card_hc, xfer, send}
use embext.BlockSd.Reset.{protect, set_card, read_hc, read_sc}
use embext.BlockSd.Exchange.{Says, Says-bind, Says-next, Says-send, Says-pure}

-- What reading the register leaves in the card's record.
abbrev pub hc_card : ℕ → ℕ → ℕ → ℕ → SdCard → SdCard
hc_card b7 b8 b9 b14 card = protect b14 (record card {
  card_type = sd_card_hc;
  size = u32 (u32 (u32 (u32 (b7 % 16 * 2 ^ 16 + b8 * 2 ^ 8) + b9) + 1) * 2 ^ 10);
})

abbrev pub sc_card : ℕ → ℕ → ℕ → ℕ → ℕ → ℕ → ℕ → SdCard → SdCard
sc_card b5 b6 b7 b8 b9 b10 b14 card = protect b14 (record card {
  card_type = sd_card_sc;
  size = u32 (
      u32 (
        u32 (u32 (u32 (b6 % 4 * 2 ^ 10 + b7 * 2 ^ 2) + b8 / 2 ^ 6 % 4) + 1)
        * 2 ^ (u16 (b9 * 2 + b10 / 2 ^ 7) % 8 + 2))
      * 2 ^ (b5 % 16 - 9));
})

module _ ⦃board : Board⦄ where
  Says-set_card :
      {B : Type 0} {f f' : SdCard → SdCard} {k : M (Sd board.Bus) B} {ys hs : List ℕ} {a : B}
      → Says k ys hs a f'
      → Says (set_card f >>= λ _. k) ys hs a (λ card. f' (f card))
  unfolding set_card ◌>>=◌
  Says-set_card {f} says = record {
    says = λ s bus e. says.says (record s { card = f s.card }) bus e;
  }

  -- Bytes whose answers are of no interest.
  skip :
      {B : Type 0} {f : SdCard → SdCard} {k : M (Sd board.Bus) B} {ys hs : List ℕ} {a : B}
      (bs gs : List ℕ)
      → length bs ≡ length gs
      → Says k ys hs a f
      → Says (send bs >>= λ _. k) (bs ++ ys) (gs ++ hs) a f
  skip {f} {k} {ys} {hs} {a} bs gs e says =
      Says-bind (send bs) (λ _. k) bs ys gs hs tt a (λ card. card) f e (Says-send bs gs e) says

  pub next :
      {B : Type 0} {f : SdCard → SdCard} {ys hs : List ℕ} {a : B} (g : ℕ)
      (k : ℕ → M (Sd board.Bus) B)
      → Says (k g) ys hs a f
      → Says (xfer 255 >>= k) (255 ∷ ys) (g ∷ hs) a f
  next {f} {ys} {hs} {a} g k says = Says-next 255 g k ys hs a f says

  pub hc :
      (b1 b2 b3 b4 b5 b6 b7 b8 b9 b10 b11 b12 b13 b14 b15 : ℕ)
      → Says read_hc
          (replicate 15 255)
          (b1 ∷ b2 ∷ b3 ∷ b4 ∷ b5 ∷ b6 ∷ b7 ∷ b8 ∷ b9 ∷ b10 ∷ b11 ∷ b12 ∷ b13 ∷ b14 ∷ b15 ∷ [])
          (ok tt)
          (hc_card b7 b8 b9 b14)
  unfolding read_hc
  hc b1 b2 b3 b4 b5 b6 b7 b8 b9 b10 b11 b12 b13 b14 b15 = Says-set_card (
      skip (replicate 6 255) (b1 ∷ b2 ∷ b3 ∷ b4 ∷ b5 ∷ b6 ∷ []) refl (
        next b7 _ (
          Says-set_card (
            next b8 _ (
              Says-set_card (
                next b9 _ (
                  Says-set_card (
                    Says-set_card (
                      Says-set_card (
                        skip (replicate 4 255) (b10 ∷ b11 ∷ b12 ∷ b13 ∷ []) refl (
                          next b14 _ (
                            Says-set_card
                              (skip (255 ∷ []) (b15 ∷ []) refl (Says-pure (ok tt)))))))))))))))

  -- A test that does not hold, or holds.
  pub guarded :
      {B : Type 0} {f : SdCard → SdCard} (m : M (Sd board.Bus) B) {k : M (Sd board.Bus) B}
      {ys hs : List ℕ} {a : B} {b : Bool}
      → b ≡ false
      → Says k ys hs a f
      → Says (if b then m else k) ys hs a f
  guarded m e says = rw e says

  pub sc :
      (b1 b2 b3 b4 b5 b6 b7 b8 b9 b10 b11 b12 b13 b14 b15 : ℕ)
      → 9 ≤ b5 % 16
      → Says read_sc
          (replicate 15 255)
          (b1 ∷ b2 ∷ b3 ∷ b4 ∷ b5 ∷ b6 ∷ b7 ∷ b8 ∷ b9 ∷ b10 ∷ b11 ∷ b12 ∷ b13 ∷ b14 ∷ b15 ∷ [])
          (ok tt)
          (sc_card b5 b6 b7 b8 b9 b10 b14)
  unfolding read_sc
  sc b1 b2 b3 b4 b5 b6 b7 b8 b9 b10 b11 b12 b13 b14 b15 le =
      let enough : ltb (b5 % 16) 9 ≡ false = ground (arith, le) in
      Says-set_card (
        skip (replicate 4 255) (b1 ∷ b2 ∷ b3 ∷ b4 ∷ []) refl (
          next b5 _ (
            next b6 _ (
              Says-set_card (
                next b7 _ (
                  Says-set_card (
                    next b8 _ (
                      Says-set_card (
                        next b9 _ (
                          next b10 _ (
                            Says-set_card (
                              Says-set_card (
                                guarded _ enough (
                                  Says-set_card (
                                    skip (replicate 3 255) (b11 ∷ b12 ∷ b13 ∷ []) refl (
                                      next b14 _ (
                                        Says-set_card (
                                          skip (255 ∷ []) (b15 ∷ []) refl
                                            (Says-pure (ok tt))))))))))))))))))))

  pub taken :
      {B : Type 0} {f : SdCard → SdCard} {m : M (Sd board.Bus) B} (k : M (Sd board.Bus) B)
      {ys hs : List ℕ} {a : B} {b : Bool}
      → b ≡ true
      → Says m ys hs a f
      → Says (if b then m else k) ys hs a f
  taken k e says = rw e says
