-- ===== src/BlockSd/Tests.antt =====
-- Runs, and the theorems at a card whose answers are written down beforehand.
use embext.Base.{ℕ, ◌%◌, ◌≡◌, refl, arith, some, false, List, []}
use embext.Base.{◌∷◌, ◌++◌, replicate, map, get_or, drop}
use embext.Driver.{ok, failed}
use embext.BlockSd.{Board, Sd}
use embext.BlockSd.{sd_command, block_read, block_write, sd_card_sc}
use embext.BlockSd.Exchange.{exchange}
use embext.BlockSd.{xfer, send, poll, wait_for}
use embext.BlockSd.Reset.{set_card, identify, check_echo, start_up, read_hc, read_csd, initialise}
use embext.BlockSd.Reset.{sd_card_reset, block_init}
use embext.BlockSd.Blocks.{command_answer}
use embext.BlockSd.Protocol.{block_read-exchange, block_write-exchange}
use embext.BlockSd.Capacity.{card_blocks, IsReadAs, read_csd-card_blocks}
use embext.Ext2.Monad.{◌>>=◌}

-- A bus that gives these answers, whatever it is sent.
abbrev scripted : Board
scripted = record {
  Bus = List ℕ;
  spi_xfer = λ b answers. (get_or answers 0 255, drop 1 answers);
  set_select = λ answers. answers;
  clear_select = λ answers. answers;
  set_up = λ answers. answers;
  no_card = λ answers. false;
  write_protected = λ answers. false;
}

abbrev idle_frame : List ℕ
idle_frame = replicate 7 255

abbrev standard : List ℕ → Sd (List ℕ)
standard answers = record {
  bus = answers;
  card = record { card_type = sd_card_sc; read_only = 0; size = 0; error = 0 };
}

abbrev reset_answers : List ℕ
reset_answers = command_answer idle_frame 2 1

abbrev read_answers : List ℕ
read_answers =
    command_answer idle_frame 1 0 ++ ((255 ∷ 255 ∷ 254 ∷ []) ++ (replicate 512 7 ++ (1 ∷ 2 ∷ [])))

block_read-exchange_example :
    block_read ⦃board = scripted⦄ 5 3 (standard read_answers)
    ≡ some (ok (map (λ c. c % 256) (replicate 512 7)), standard [])
block_read-exchange_example =
    block_read-exchange ⦃board = scripted⦄ 5 3 1 1 2 idle_frame (255 ∷ 255 ∷ []) (replicate 512 7)
      (standard read_answers) [] refl (omega arith) (refl, (refl, tt)) (omega arith) refl
      (unfold exchange in refl)

-- The response 11 says that the checksum was wrong.
abbrev write_answers : List ℕ
write_answers =
    command_answer idle_frame 1 0
    ++ (replicate 3 255
        ++ (replicate 512 255 ++ ((255 ∷ 255 ∷ 11 ∷ []) ++ ((0 ∷ 0 ∷ []) ++ (255 ∷ [])))))

block_write-exchange_example :
    block_write ⦃board = scripted⦄ 5 3 (replicate 512 7) (standard write_answers)
    ≡ some (ok tt, standard [])
block_write-exchange_example =
    block_write-exchange ⦃board = scripted⦄ 5 3 1 idle_frame (replicate 512 7) (replicate 3 255)
      (replicate 512 255) (255 ∷ 255 ∷ 11 ∷ []) (0 ∷ 0 ∷ []) (standard write_answers) [] refl
      (omega arith) refl refl refl refl (refl, (refl, tt)) (omega arith) (unfold exchange in refl)

-- A card of 4 GB: C_SIZE is 8191.
abbrev large_csd : List ℕ
large_csd = 64 ∷ 14 ∷ 0 ∷ 50 ∷ 91 ∷ 89 ∷ 0 ∷ 0 ∷ 31 ∷ 255 ∷ 127 ∷ 128 ∷ 10 ∷ 64 ∷ 16 ∷ 1 ∷ []

read_csd-card_blocks_example :
    IsReadAs ⦃board = scripted⦄ (standard large_csd) [] large_csd (card_blocks large_csd)
read_csd-card_blocks_example =
    read_csd-card_blocks ⦃board = scripted⦄ large_csd (standard large_csd) [] refl (omega arith)
      (λ e. absurd (omega (arith, e))) (unfold exchange in refl)

four_gigabytes : card_blocks large_csd ≡ 8388608
four_gigabytes = refl

abbrev blank : List ℕ → Sd (List ℕ)
blank answers = record {
  bus = answers;
  card = record { card_type = 0; read_only = 0; size = 0; error = 0 };
}

-- No card answers.
block_init_fails :
    block_init ⦃board = scripted⦄ 5 (blank [])
    ≡ some (
      failed,
      record { bus = []; card = record { card_type = 99; read_only = 0; size = 0; error = 2 } },
    )
unfolding block_init sd_card_reset sd_command send xfer poll ◌>>=◌ set_card
block_init_fails = refl

-- A high-capacity card: CMD0, CMD8 with its echo, ACMD41 twice, CMD9 and the register.
abbrev start_answers : List ℕ
start_answers =
    replicate 20 255
    ++ (idle_frame ++ (1 ∷ []))
    ++ (idle_frame ++ (1 ∷ 0 ∷ 0 ∷ 1 ∷ 170 ∷ []))
    ++ (idle_frame ++ (1 ∷ []) ++ idle_frame ++ (1 ∷ []))
    ++ (idle_frame ++ (1 ∷ []) ++ idle_frame ++ (0 ∷ []))
    ++ (idle_frame ++ (0 ∷ []))
    ++ (255 ∷ 254 ∷ large_csd)

block_init_runs :
    block_init ⦃board = scripted⦄ 5 (blank start_answers)
    ≡ some (
      ok tt,
      record {
        bus = [];
        card = record { card_type = 3; read_only = 1; size = 8388608; error = 0 };
      },
    )
unfolding block_init sd_card_reset sd_command send xfer poll ◌>>=◌ set_card identify check_echo
    initialise start_up wait_for read_csd read_hc
block_init_runs = refl
