-- ===== src/BlockSd/Reset.antt =====
-- `sd_card_reset` and `block_init` of src/block_drivers/block_sd.c.
use embext.Base.{ℕ, zero, suc, ◌+◌, ◌-◌, ◌*◌, ◌/◌, ◌%◌, ◌^◌, Bool, true, false, not}
use embext.Base.{List, [], ◌∷◌, replicate, ltb, ◌==◌, if◌then◌else◌}
use embext.Driver.{Reply, ok, failed}
use embext.Ext2.Monad.{M, pure, ◌>>=◌, ◌>>◌, get, modify, undefined, on_reply}
use embext.Ext2.State.{u16, u32}
use embext.BlockSd.{Board, Sd, SdCard, sd_card_sc, sd_card_hc, sd_card_error, sd_err_not_present}
use embext.BlockSd.{cmd0, cmd8, cmd9, acmd41, is_idle, xfer, send, wait_for, sd_command}

-- The write-protection flags of the register.
abbrev pub protect : ℕ → SdCard → SdCard
protect c card = if c / 16 % 4 == 0 then card else record card { read_only = 1 }

module _ ⦃board : Board⦄ where
  unfoldable pub set_card : (SdCard → SdCard) → M (Sd board.Bus) (Unit {0})
  set_card f = modify (λ s. record s { card = f s.card })

  -- `card.card_type = SD_CARD_ERROR; return -1;`
  unfoldable pub not_a_card : M (Sd board.Bus) (Reply (Unit {0}))
  unfolding set_card
  not_a_card = do set_card (λ card. record card { card_type = sd_card_error }); pure failed

  -- The bytes of the answer to CMD8, compared with those expected up to the first that differs.
  unfoldable pub check_echo : List ℕ → M (Sd board.Bus) Bool
  check_echo [] = pure true
  check_echo (e ∷ es) = do c ← xfer 255; if c == e then check_echo es else pure false

  -- Behind CMD8, which was answered by `c`.
  unfoldable pub identify : ℕ → M (Sd board.Bus) (Reply (Unit {0}))
  identify c =
      if c == 5
      then (do set_card (λ card. record card { card_type = sd_card_sc }); pure (ok tt))
      else if c == 1
      then (do
        echoed ← check_echo (0 ∷ 0 ∷ 1 ∷ 170 ∷ [])
        if echoed
            then (do set_card (λ card. record card { card_type = sd_card_hc }); pure (ok tt))
            else not_a_card)
      else not_a_card

  -- ACMD41 until the card is ready: no limit in the source.
  unfoldable pub start_up : ℕ → ℕ → M (Sd board.Bus) (Unit {0})
  start_up fuel zero = undefined
  start_up fuel (suc rounds) = do
    c ← sd_command fuel acmd41 (2 ^ 30) 1
    if c == 1 then start_up fuel rounds else pure tt

  -- The register of a high-capacity card, behind its first byte.
  unfoldable pub read_hc : M (Sd board.Bus) (Reply (Unit {0}))
  read_hc = do
    set_card (λ card. record card { card_type = sd_card_hc })
    send (replicate 6 255)
    c ← xfer 255
    set_card (λ card. record card { size = c % 16 * 2 ^ 16 })
    c ← xfer 255
    set_card (λ card. record card { size = u32 (card.size + c * 2 ^ 8) })
    c ← xfer 255
    set_card (λ card. record card { size = u32 (card.size + c) })
    set_card (λ card. record card { size = u32 (card.size + 1) })
    set_card (λ card. record card { size = u32 (card.size * 2 ^ 10) })
    send (replicate 4 255)
    c ← xfer 255
    set_card (protect c)
    send (255 ∷ [])
    pure (ok tt)

  -- The register of a standard card. The shift by `i - 9` is undefined below 9.
  unfoldable pub read_sc : M (Sd board.Bus) (Reply (Unit {0}))
  read_sc = do
    set_card (λ card. record card { card_type = sd_card_sc })
    send (replicate 4 255)
    c ← xfer 255
    let i = c % 16
    c ← xfer 255
    set_card (λ card. record card { size = c % 4 * 2 ^ 10 })
    c ← xfer 255
    set_card (λ card. record card { size = u32 (card.size + c * 2 ^ 2) })
    c ← xfer 255
    set_card (λ card. record card { size = u32 (card.size + c / 2 ^ 6 % 4) })
    c ← xfer 255
    d ← xfer 255
    let mult = 2 ^ (u16 (c * 2 + d / 2 ^ 7) % 8 + 2)
    set_card (λ card. record card { size = u32 (card.size + 1) })
    set_card (λ card. record card { size = u32 (card.size * mult) })
    if ltb i 9 then undefined else do
      set_card (λ card. record card { size = u32 (card.size * 2 ^ (i - 9)) })
      send (replicate 3 255)
      c ← xfer 255
      set_card (protect c)
      send (255 ∷ [])
      pure (ok tt)

  -- The register behind its start token: the first byte says which of the two layouts it has.
  unfoldable pub read_csd : M (Sd board.Bus) (Reply (Unit {0}))
  read_csd = do c ← xfer 255; if c / 64 % 2 == 1 then read_hc else read_sc

  -- Behind CMD8.
  unfoldable pub initialise : ℕ → M (Sd board.Bus) (Reply (Unit {0}))
  initialise fuel = do
    start_up fuel fuel
    c ← sd_command fuel cmd9 0 1
    if not (c == 0) then not_a_card else do _ ← wait_for (λ c. not (is_idle c)) fuel; read_csd

  unfoldable pub sd_card_reset : ℕ → M (Sd board.Bus) (Reply (Unit {0}))
  sd_card_reset fuel = do
    s ← get
    if board.no_card s.bus
        then (do set_card (λ card. record card { error = sd_err_not_present }); pure failed)
        else do
          modify (λ s. record s { bus = board.set_select s.bus })
          send (replicate 20 255)
          modify (λ s. record s { bus = board.clear_select s.bus })
          c ← sd_command fuel cmd0 0 149
          if is_idle c
              then (do
                set_card
                    (λ card. record card { card_type = sd_card_error; error = sd_err_not_present })
                pure failed)
              else do
                c ← sd_command fuel cmd8 426 135
                identified ← identify c
                on_reply identified (pure failed) λ _. initialise fuel

  unfoldable pub block_init : ℕ → M (Sd board.Bus) (Reply (Unit {0}))
  block_init fuel = do modify (λ s. record s { bus = board.set_up s.bus }); sd_card_reset fuel
