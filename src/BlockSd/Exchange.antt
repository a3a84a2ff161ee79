-- ===== src/BlockSd/Exchange.antt =====
-- Conversations on the bus: what a computation sends, and what it makes of the answers.
use embext.Base.{ℕ, zero, suc, ◌+◌, ◌%◌, ◌<◌, ◌≡◌, ◌≢◌, refl, ap, ap₂, arith, drop, get_or}
use embext.Base.{Bool, true, false, some, List, [], ◌∷◌, ◌++◌, length, replicate, map}
use embext.Ext2.Monad.{M, pure, ◌>>=◌}
use embext.BlockSd.{Board, Sd, SdCard, is_idle, xfer, send, receive, wait_for, poll}

-- Answers that a loop waits through.
abbrev pub AllPassed : (ℕ → Bool) → List ℕ → Type 0
AllPassed stop [] = Unit {0}
AllPassed stop (g ∷ gs) = (stop g ≡ false) × AllPassed stop gs

module _ ⦃board : Board⦄ where
  -- The answers to some bytes, and the bus behind them.
  unfoldable pub exchange : List ℕ → board.Bus → List ℕ × board.Bus
  exchange [] bus = ([], bus)
  exchange (b ∷ bs) bus =
      let answer = board.spi_xfer b bus in
      let rest = exchange bs answer.1 in (answer.0 ∷ rest.0, rest.1)

  -- `m` sends just the bytes `sent` when they are answered by `got`; then it returns `a`, and `f`
  -- is what it does to the card's record.
  pub record Says {A : Type 0} (m : M (Sd board.Bus) A) (sent got : List ℕ) (a : A)
      (f : SdCard → SdCard) : Type 0 where
    pub says :
        (s : Sd board.Bus) (bus : board.Bus)
        → exchange sent s.bus ≡ (got, bus)
        → m s ≡ some (a, record { bus = bus; card = f s.card })

  -- The answers to two runs of bytes.
  split :
      (xs ys gs hs : List ℕ) (bus bus' : board.Bus)
      → length xs ≡ length gs
      → exchange (xs ++ ys) bus ≡ (gs ++ hs, bus')
      → (middle : board.Bus) × (exchange xs bus ≡ (gs, middle)) × (exchange ys middle ≡ (hs, bus'))
  unfolding exchange
  split [] ys [] hs bus bus' e h = (bus, refl, h)
  split [] ys (g ∷ gs) hs bus bus' e h = absurd (omega (arith, e))
  split (x ∷ xs) ys [] hs bus bus' e h = absurd (omega (arith, e))
  split (x ∷ xs) ys (g ∷ gs) hs bus bus' e h =
      let sized : length xs ≡ length gs = omega (arith, e) in
      let rest = ap (λ p. (drop 1 p.0, p.1)) h in
      let (middle, first, second) = split xs ys gs hs (board.spi_xfer x bus).1 bus' sized rest in
      (middle, ap₂ (λ c r. (c ∷ r.0, r.1)) (ap (λ p. get_or p.0 0 0) h) first, second)

  -- One byte.
  pub Says-xfer : (b g : ℕ) → Says (xfer b) (b ∷ []) (g ∷ []) g (λ card. card)
  unfolding exchange xfer ◌>>=◌
  Says-xfer b g = record {
    says = λ s bus e.
        let answer = ap (λ p. get_or p.0 0 0) e in
        let behind = ap (λ p. p.1) e in rw (answer, behind) refl;
  }

  pub Says-pure : {A : Type 0} (a : A) → Says (pure a) [] [] a (λ card. card)
  unfolding exchange ◌>>=◌
  Says-pure a = record { says = λ s bus e. let behind = ap (λ p. p.1) e in rw (← behind) refl }

  pub Says-bind :
      {A B : Type 0} (m : M (Sd board.Bus) A) (k : A → M (Sd board.Bus) B) (xs ys gs hs : List ℕ)
      (a : A) (b : B) (f f' : SdCard → SdCard)
      → length xs ≡ length gs
      → Says m xs gs a f
      → Says (k a) ys hs b f'
      → Says (m >>= k) (xs ++ ys) (gs ++ hs) b (λ card. f' (f card))
  unfolding ◌>>=◌
  Says-bind m k xs ys gs hs a b f f' e first second = record {
    says = λ s bus h.
        let (middle, g, h') = split xs ys gs hs s.bus bus e h in
        rw (first.says s middle g) (second.says (record { bus = middle; card = f s.card }) bus h');
  }

  -- A byte, and what follows.
  pub Says-next :
      {B : Type 0} (b g : ℕ) (k : ℕ → M (Sd board.Bus) B) (ys hs : List ℕ) (a : B)
      (f : SdCard → SdCard)
      → Says (k g) ys hs a f
      → Says (xfer b >>= k) (b ∷ ys) (g ∷ hs) a f
  Says-next b g k ys hs a f says =
      Says-bind (xfer b) k (b ∷ []) ys (g ∷ []) hs g a (λ card. card) f refl (Says-xfer b g) says

  -- What is made of a result.
  pub Says-result :
      {A B : Type 0} (m : M (Sd board.Bus) A) (h : A → B) (xs gs : List ℕ) (a : A)
      (f : SdCard → SdCard)
      → Says m xs gs a f
      → Says (m >>= λ a. pure (h a)) xs gs (h a) f
  unfolding ◌>>=◌
  Says-result m h xs gs a f says = record { says = λ s bus e. rw (says.says s bus e) refl }

  -- A part of a conversation whose bytes are spelled otherwise.
  pub Says-cast :
      {A : Type 0} {m : M (Sd board.Bus) A} {a : A} {f : SdCard → SdCard} (xs ys gs hs : List ℕ)
      → xs ≡ ys
      → gs ≡ hs
      → Says m xs gs a f
      → Says m ys hs a f
  Says-cast xs ys gs hs e e' says = rw (← e, ← e') says

  pub Says-send : (bs gs : List ℕ) → length bs ≡ length gs → Says (send bs) bs gs tt (λ card. card)
  unfolding send
  Says-send [] [] e = Says-pure tt
  Says-send [] (g ∷ gs) e = absurd (omega (arith, e))
  Says-send (b ∷ bs) [] e = absurd (omega (arith, e))
  Says-send (b ∷ bs) (g ∷ gs) e =
      Says-next b g (λ _. send bs) bs gs tt (λ card. card) (Says-send bs gs (omega (arith, e)))

  pub Says-receive :
      (n : ℕ) (gs : List ℕ)
      → length gs ≡ n
      → Says (receive n) (replicate n 255) gs (map (λ c. c % 256) gs) (λ card. card)
  unfolding receive
  Says-receive zero [] e = Says-pure []
  Says-receive zero (g ∷ gs) e = absurd (omega (arith, e))
  Says-receive (suc n) [] e = absurd (omega (arith, e))
  Says-receive (suc n) (g ∷ gs) e =
      Says-next 255 g _ (replicate n 255) gs _ (λ card. card)
        (Says-result (receive n) (λ cs. g % 256 ∷ cs) (replicate n 255) gs _ (λ card. card)
          (Says-receive n gs (omega (arith, e))))

  pub Says-wait_for :
      (stop : ℕ → Bool) (fuel c : ℕ) (gs : List ℕ)
      → AllPassed stop gs
      → stop c ≡ true
      → length gs < fuel
      → Says (wait_for stop fuel) (replicate (length gs + 1) 255) (gs ++ (c ∷ [])) c (λ card. card)
  unfolding wait_for
  Says-wait_for stop zero c gs passed stops enough = absurd (omega (arith, enough))
  Says-wait_for stop (suc fuel) c [] passed stops enough =
      Says-next 255 c _ [] [] c (λ card. card) (rw stops (Says-pure c))
  Says-wait_for stop (suc fuel) c (g ∷ gs) (passed, more) stops enough =
      let count : suc (length gs) + 1 ≡ suc (length gs + 1) = omega arith in
      rw count (
        Says-next 255 g _ (replicate (length gs + 1) 255) (gs ++ (c ∷ [])) c (λ card. card)
          (rw passed (Says-wait_for stop fuel c gs more stops (omega (arith, enough)))))

  pub Says-poll :
      (left n before c : ℕ)
      → n < left
      → c ≢ 255
      → Says
          (poll left before)
          (replicate (n + 1) 255)
          (replicate n 255 ++ (c ∷ []))
          c
          (λ card. card)
  unfolding poll
  Says-poll zero n before c lt answered = absurd (omega (arith, lt))
  Says-poll (suc left) zero before c lt answered =
      let other : is_idle c ≡ false = ground (arith, answered) in
      Says-next 255 c _ [] [] c (λ card. card) (rw other (Says-pure c))
  Says-poll (suc left) (suc n) before c lt answered =
      let count : suc n + 1 ≡ suc (n + 1) = omega arith in
      rw count (
        Says-next 255 255 _ (replicate (n + 1) 255) (replicate n 255 ++ (c ∷ [])) c (λ card. card)
          (Says-poll left n 255 c (omega (arith, lt)) answered))

  -- A card that never answers.
  pub Says-poll_silent :
      (left before : ℕ)
      → before ≡ 255
      → Says (poll left before) (replicate left 255) (replicate left 255) 255 (λ card. card)
  unfolding poll
  Says-poll_silent zero before e = rw e (Says-pure 255)
  Says-poll_silent (suc left) before e =
      Says-next 255 255 _ (replicate left 255) (replicate left 255) 255 (λ card. card)
        (Says-poll_silent left 255 refl)
