-- ===== src/BlockSd/Protocol.antt =====
-- The theorems on commands and blocks of an SD card that answers.
use embext.Base.{ℕ, ◌/◌, ◌%◌, ◌<◌, ◌≡◌, ◌≢◌, refl, arith, some}
use embext.Base.{List, [], ◌∷◌, ◌++◌, length, replicate, map, ◌==◌}
use embext.Base.{ap, ◌∙◌, slice, take_of_length_le, slice_inside}
use embext.Driver.{ok, failed}
use embext.Ext2.Monad.{◌>>=◌}
use embext.BlockSd.{Board, Sd, is_idle, frame, address, cmd12, cmd17, cmd24, sd_retries}
use embext.BlockSd.{sd_command, block_read, block_write}
use embext.BlockSd.Exchange.{exchange, Says-bind}
use embext.BlockSd.Exchange.{AllPassed}
use embext.BlockSd.Blocks.{command_sent, command_answer, data_sent, block_sent, sized, answered}
use embext.BlockSd.Blocks.{silent, reads, writes}

module _ ⦃board : Board⦄ where
  pub sd_command-answer :
      (fuel code argument chksm n c : ℕ) (g : List ℕ) (s : Sd board.Bus) (bus : board.Bus)
      → code / 128 % 2 ≡ 0
      → code ≢ cmd12
      → length g ≡ 7
      → n < sd_retries
      → c ≢ 255
      → exchange (command_sent code argument chksm n) s.bus ≡ (command_answer g n c, bus)
      → sd_command fuel code argument chksm s ≡ some (c, record s { bus = bus })
  sd_command-answer fuel code argument chksm n c g s bus low other e lt some_answer =
      (answered fuel code argument chksm n c g low other e lt some_answer).says s bus

  -- A card that gives no other answer in 1000 bytes: the command returns an idle byte.
  pub sd_command-silent :
      (fuel code argument chksm : ℕ) (g : List ℕ) (s : Sd board.Bus) (bus : board.Bus)
      → code / 128 % 2 ≡ 0
      → code ≢ cmd12
      → length g ≡ 7
      → exchange (frame code argument chksm ++ replicate sd_retries 255) s.bus
        ≡ (g ++ replicate sd_retries 255, bus)
      → sd_command fuel code argument chksm s ≡ some (255, record s { bus = bus })
  sd_command-silent fuel code argument chksm g s bus low other e =
      (silent fuel code argument chksm g low other e).says s bus

  -- A card that answers CMD17 for a block, its number times 512 modulo 2^32 for a standard card, by
  -- 0 within 1000 bytes, then by any bytes but the start token, fewer than the driver has patience
  -- for, the token, 512 bytes and two of a checksum: `block_read` returns the 512 bytes, and has
  -- sent nothing but the command and idle bytes.
  pub block_read-exchange :
      (fuel block n k1 k2 : ℕ) (g w bytes : List ℕ) (s : Sd board.Bus) (bus : board.Bus)
      → length g ≡ 7
      → n < sd_retries
      → AllPassed (λ c. c == 254) w
      → length w < fuel
      → length bytes ≡ 512
      → exchange (command_sent cmd17 (address s.card block) 1 n ++ data_sent (length w)) s.bus
        ≡ (command_answer g n 0 ++ ((w ++ (254 ∷ [])) ++ (bytes ++ (k1 ∷ k2 ∷ []))), bus)
      → block_read fuel block s ≡ some (ok (map (λ c. c % 256) bytes), record s { bus = bus })
  unfolding block_read ◌>>=◌
  block_read-exchange fuel block n k1 k2 g w bytes s bus e lt passed enough whole h =
      (Says-bind (sd_command fuel cmd17 (address s.card block) 1) _
          (command_sent cmd17 (address s.card block) 1 n) _ (command_answer g n 0) _ 0 _
          (λ card. card) (λ card. card) (sized cmd17 (address s.card block) 1 n 0 g e)
          (answered fuel cmd17 (address s.card block) 1 n 0 g refl (omega arith) e lt (omega arith))
          (reads fuel k1 k2 w bytes passed enough whole)).says
        s bus h

  -- Another answer to CMD17: the read fails, and nothing more is sent.
  pub block_read-refused :
      (fuel block n c : ℕ) (g : List ℕ) (s : Sd board.Bus) (bus : board.Bus)
      → length g ≡ 7
      → n < sd_retries
      → c ≢ 0
      → c ≢ 255
      → exchange (command_sent cmd17 (address s.card block) 1 n) s.bus ≡ (command_answer g n c, bus)
      → block_read fuel block s ≡ some (failed, record s { bus = bus })
  unfolding block_read ◌>>=◌
  block_read-refused fuel block n c g s bus e lt some_error some_answer h =
      let step =
        sd_command-answer fuel cmd17 (address s.card block) 1 n c g s bus refl (omega arith) e lt
          some_answer h in
      ground (arith, step, some_error)

  whole_block : (bytes : List ℕ) → length bytes ≡ 512 → slice bytes 0 512 ≡ some bytes
  whole_block bytes whole =
      slice_inside bytes 0 512 (omega (arith, whole))
      ∙ ap some (take_of_length_le 512 bytes (omega (arith, whole)))

  -- A card that answers CMD24 for a block likewise by 0 within 1000 bytes, and to the block that
  -- follows by any bytes, any response among them, then by a number of bytes that are not idle, for
  -- which the driver has patience, and an idle byte. `block_write` has sent the command, two idle
  -- bytes, the start token, the 512 bytes of the block, two bytes of a checksum and idle bytes, and
  -- reports success, whatever the response was.
  pub block_write-exchange :
      (fuel block n : ℕ) (g bytes g3 answers response busy : List ℕ) (s : Sd board.Bus)
      (bus : board.Bus)
      → length g ≡ 7
      → n < sd_retries
      → length bytes ≡ 512
      → length g3 ≡ 3
      → length answers ≡ 512
      → length response ≡ 3
      → AllPassed is_idle busy
      → length busy < fuel
      → exchange
          (command_sent cmd24 (address s.card block) 1 n ++ block_sent bytes (length busy))
          s.bus
        ≡ (command_answer g n 0 ++ (g3 ++ (answers ++ (response ++ (busy ++ (255 ∷ []))))), bus)
      → block_write fuel block bytes s ≡ some (ok tt, record s { bus = bus })
  unfolding block_write ◌>>=◌
  block_write-exchange fuel block n g bytes g3 answers response busy s bus e lt whole e3 ea er
        passed enough h =
      rw (whole_block bytes whole) (
        (Says-bind (sd_command fuel cmd24 (address s.card block) 1) _
            (command_sent cmd24 (address s.card block) 1 n) _ (command_answer g n 0) _ 0 _
            (λ card. card) (λ card. card) (sized cmd24 (address s.card block) 1 n 0 g e)
            (answered fuel cmd24 (address s.card block) 1 n 0 g refl (omega arith) e lt
              (omega arith))
            (writes fuel bytes g3 answers response busy whole e3 ea er passed enough)).says
          s bus h)

  -- Another answer to CMD24: the write fails, and nothing more is sent.
  pub block_write-refused :
      (fuel block n c : ℕ) (g bytes : List ℕ) (s : Sd board.Bus) (bus : board.Bus)
      → length g ≡ 7
      → n < sd_retries
      → c ≢ 0
      → c ≢ 255
      → exchange (command_sent cmd24 (address s.card block) 1 n) s.bus ≡ (command_answer g n c, bus)
      → block_write fuel block bytes s ≡ some (failed, record s { bus = bus })
  unfolding block_write ◌>>=◌
  block_write-refused fuel block n c g bytes s bus e lt some_error some_answer h =
      let step =
        sd_command-answer fuel cmd24 (address s.card block) 1 n c g s bus refl (omega arith) e lt
          some_answer h in
      ground (arith, step, some_error)
