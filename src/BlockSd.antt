-- ===== src/BlockSd.antt =====
-- src/block_drivers/block_sd.c and block_sd.h: a driver of an SD card over SPI. The calls of
-- libopencm3 are the operations of a board; a loop that waits for the card without a limit has fuel.
pub mod Reset
pub mod Exchange
pub mod Blocks
pub mod Protocol
pub mod Csd
pub mod Capacity
mod Tests
use embext.Base.{ℕ, zero, suc, ◌+◌, ◌*◌, ◌/◌, ◌%◌, ◌^◌, Bool, not, List, [], ◌∷◌, ◌==◌}
use embext.Base.{if◌then◌else◌, slice}
use embext.Driver.{Reply, ok, failed}
use embext.Ext2.Monad.{M, pure, ◌>>=◌, ◌>>◌, get, modify, defined, undefined}
use embext.Ext2.State.{u32}

-- The calls of the board's library: a byte sent and the `uint16_t` received for it, the chip-select
-- pin, the set-up of clocks, pins and SPI, and the two switches of the card's slot, which answer
-- false where `config.h` does not define their pins.
pub record Board : Type 1 where
  pub Bus : Type 0
  pub spi_xfer : ℕ → Bus → ℕ × Bus
  pub set_select : Bus → Bus
  pub clear_select : Bus → Bus
  pub set_up : Bus → Bus
  pub no_card : Bus → Bool
  pub write_protected : Bus → Bool

-- `SDCard`
pub record SdCard : Type 0 where
  pub card_type : ℕ
  pub read_only : ℕ
  pub size : ℕ
  pub error : ℕ

-- The board's bus and the global `card`.
pub record Sd (Bus : Type 0) : Type 0 where
  pub bus : Bus
  pub card : SdCard

abbrev pub sd_card_sc : ℕ
sd_card_sc = 2

abbrev pub sd_card_hc : ℕ
sd_card_hc = 3

abbrev pub sd_card_error : ℕ
sd_card_error = 99

abbrev pub sd_err_not_present : ℕ
sd_err_not_present = 2

abbrev pub cmd0 : ℕ
cmd0 = 0

abbrev pub cmd8 : ℕ
cmd8 = 8

abbrev pub cmd9 : ℕ
cmd9 = 9

abbrev pub cmd12 : ℕ
cmd12 = 12

abbrev pub cmd17 : ℕ
cmd17 = 17

abbrev pub cmd24 : ℕ
cmd24 = 24

abbrev pub acmd41 : ℕ
acmd41 = 169

abbrev pub sd_retries : ℕ
sd_retries = 1000

abbrev pub is_idle : ℕ → Bool
is_idle c = c == 255

-- The six bytes of a command, with the idle byte before them.
abbrev pub frame : ℕ → ℕ → ℕ → List ℕ
frame code argument chksm =
    255
    ∷ (64 + code % 128)
    ∷ argument / 2 ^ 24 % 256
    ∷ argument / 2 ^ 16 % 256
    ∷ argument / 2 ^ 8 % 256
    ∷ argument % 256
    ∷ chksm
    ∷ []

-- `block <<= 9` for a card that is addressed by bytes.
abbrev pub address : SdCard → ℕ → ℕ
address card block = if card.card_type == sd_card_sc then u32 (block * 2 ^ 9) else block

module _ ⦃board : Board⦄ where
  unfoldable pub xfer : ℕ → M (Sd board.Bus) ℕ
  xfer b = do
    s ← get
    let answer = board.spi_xfer b s.bus
    modify (λ s. record s { bus = answer.1 })
    pure answer.0

  -- Bytes sent one after another, the answers ignored.
  unfoldable pub send : List ℕ → M (Sd board.Bus) (Unit {0})
  send [] = pure tt
  send (b ∷ bs) = do _ ← xfer b; send bs

  -- Bytes received one after another.
  unfoldable pub receive : ℕ → M (Sd board.Bus) (List ℕ)
  receive zero = pure []
  receive (suc n) = do c ← xfer 255; cs ← receive n; pure (c % 256 ∷ cs)

  -- A loop that waits for an answer, with no limit in the source.
  unfoldable pub wait_for : (ℕ → Bool) → ℕ → M (Sd board.Bus) ℕ
  wait_for stop zero = undefined
  wait_for stop (suc fuel) = do c ← xfer 255; if stop c then pure c else wait_for stop fuel

  -- The loop of `SD_RETRIES` rounds, of which `left` are left, `c` the answer before.
  unfoldable pub poll : ℕ → ℕ → M (Sd board.Bus) ℕ
  poll zero c = pure c
  poll (suc left) c = do c ← xfer 255; if is_idle c then poll left c else pure c

  unfoldable pub sd_command : ℕ → ℕ → ℕ → ℕ → M (Sd board.Bus) ℕ
  sd_command fuel code argument chksm = do
    if code / 128 % 2 == 0
        then pure tt
        else (do send (frame 55 0 1); _ ← wait_for (λ c. not (is_idle c)) fuel; pure tt)
    send (frame code argument chksm)
    if code == cmd12 then send (255 ∷ []) else pure tt
    poll sd_retries 255

  unfoldable pub block_read : ℕ → ℕ → M (Sd board.Bus) (Reply (List ℕ))
  block_read fuel block = do
    s ← get
    c ← sd_command fuel cmd17 (address s.card block) 1
    if not (c == 0) then pure failed else do
      _ ← wait_for (λ c. c == 254) fuel
      bytes ← receive 512
      send (255 ∷ 255 ∷ [])
      pure (ok bytes)

  -- The card's response to the data is read and dropped.
  unfoldable pub block_write : ℕ → ℕ → List ℕ → M (Sd board.Bus) (Reply (Unit {0}))
  block_write fuel block buf = do
    s ← get
    c ← sd_command fuel cmd24 (address s.card block) 1
    if not (c == 0) then pure failed else do
      send (255 ∷ 255 ∷ 254 ∷ [])
      bytes ← defined (slice buf 0 512)
      send bytes
      send (255 ∷ 255 ∷ 255 ∷ [])
      _ ← wait_for is_idle fuel
      pure (ok tt)

  unfoldable pub block_get_volume_size : Sd board.Bus → ℕ
  block_get_volume_size s = s.card.size

  unfoldable pub block_get_device_read_only : Sd board.Bus → ℕ
  block_get_device_read_only s =
      if board.write_protected s.bus then 1 else if s.card.read_only == 0 then 0 else 1

  unfoldable pub block_get_error : Sd board.Bus → ℕ
  block_get_error s = s.card.error

  unfoldable pub block_sync : M (Sd board.Bus) (Reply (Unit {0}))
  block_sync = pure (ok tt)

  unfoldable pub block_halt : M (Sd board.Bus) (Reply (Unit {0}))
  block_halt = pure (ok tt)
