-- ===== src/BlockSd/Blocks.antt =====
-- What a driver of an SD card sends for commands and blocks.
use embext.Base.{ℕ, ◌+◌, ◌/◌, ◌%◌, ◌<◌, ◌≡◌, ◌≢◌, refl, arith, true, false}
use embext.Base.{List, [], ◌∷◌, ◌++◌, length, length-append, length-replicate, replicate, map, ◌==◌}
use embext.Driver.{ok}
use embext.Ext2.Monad.{◌>>=◌, pure}
use embext.BlockSd.{Board, is_idle, frame, cmd12, sd_retries, send, poll}
use embext.BlockSd.{wait_for, receive, sd_command}
use embext.BlockSd.Exchange.{Says, Says-bind, Says-send, Says-poll, Says-poll_silent}
use embext.BlockSd.Exchange.{Says-pure, Says-wait_for, Says-receive, Says-result, AllPassed}

-- The bytes of a command whose answer comes behind `n` idle bytes, and the answers to them, those
-- to the frame being `g`.
abbrev pub command_sent : ℕ → ℕ → ℕ → ℕ → List ℕ
command_sent code argument chksm n = frame code argument chksm ++ replicate (n + 1) 255

abbrev pub command_answer : List ℕ → ℕ → ℕ → List ℕ
command_answer g n c = g ++ (replicate n 255 ++ (c ∷ []))

module _ ⦃board : Board⦄ where
  pub sized :
      (code argument chksm n c : ℕ) (g : List ℕ)
      → length g ≡ 7
      → length (command_sent code argument chksm n) ≡ length (command_answer g n c)
  sized code argument chksm n c g e = omega (
    arith,
    e,
    length-append g (replicate n 255 ++ (c ∷ [])),
    length-append (replicate n 255) (c ∷ []),
    length-replicate {A = ℕ} n 255,
    length-replicate {A = ℕ} (n + 1) 255,
  )

  plain :
      (fuel code argument chksm c : ℕ) (xs g gs : List ℕ)
      → code / 128 % 2 ≡ 0
      → code ≢ cmd12
      → length g ≡ 7
      → Says (poll sd_retries 255) xs gs c (λ card. card)
      → Says
          (sd_command fuel code argument chksm)
          (frame code argument chksm ++ xs)
          (g ++ gs)
          c
          (λ card. card)
  unfolding sd_command
  plain fuel code argument chksm c xs g gs low other e polled =
      let kind : (code / 128 % 2 == 0) ≡ true = ground (arith, low) in
      let stop : (code == cmd12) ≡ false = ground (arith, other) in
      rw (kind, stop)
        (Says-bind (pure tt) _ [] (frame code argument chksm ++ xs) [] (g ++ gs) tt c (λ card. card)
          (λ card. card) refl (Says-pure tt)
          (Says-bind (send (frame code argument chksm)) _ (frame code argument chksm) xs g gs tt c
            (λ card. card) (λ card. card) (omega (arith, e))
            (Says-send (frame code argument chksm) g (omega (arith, e)))
            (Says-bind (pure tt) _ [] xs [] gs tt c (λ card. card) (λ card. card) refl
              (Says-pure tt) polled)))

  pub answered :
      (fuel code argument chksm n c : ℕ) (g : List ℕ)
      → code / 128 % 2 ≡ 0
      → code ≢ cmd12
      → length g ≡ 7
      → n < sd_retries
      → c ≢ 255
      → Says
          (sd_command fuel code argument chksm)
          (command_sent code argument chksm n)
          (command_answer g n c)
          c
          (λ card. card)
  answered fuel code argument chksm n c g low other e lt some_answer =
      plain fuel code argument chksm c (replicate (n + 1) 255) g (replicate n 255 ++ (c ∷ [])) low
        other e (Says-poll sd_retries n 255 c lt some_answer)

  pub silent :
      (fuel code argument chksm : ℕ) (g : List ℕ)
      → code / 128 % 2 ≡ 0
      → code ≢ cmd12
      → length g ≡ 7
      → Says
          (sd_command fuel code argument chksm)
          (frame code argument chksm ++ replicate sd_retries 255)
          (g ++ replicate sd_retries 255)
          255
          (λ card. card)
  silent fuel code argument chksm g low other e =
      plain fuel code argument chksm 255 (replicate sd_retries 255) g (replicate sd_retries 255) low
        other e (Says-poll_silent sd_retries 255 refl)

  -- What follows the command of a read.
  abbrev pub data_sent : ℕ → List ℕ
  data_sent waits = replicate (waits + 1) 255 ++ (replicate 512 255 ++ (255 ∷ 255 ∷ []))

  pub reads :
      (fuel k1 k2 : ℕ) (w bytes : List ℕ)
      → AllPassed (λ c. c == 254) w
      → length w < fuel
      → length bytes ≡ 512
      → Says
          (wait_for (λ c. c == 254) fuel >>= λ _.
            receive 512 >>= λ bytes. send (255 ∷ 255 ∷ []) >>= λ _. pure (ok bytes))
          (data_sent (length w))
          ((w ++ (254 ∷ [])) ++ (bytes ++ (k1 ∷ k2 ∷ [])))
          (ok (map (λ c. c % 256) bytes))
          (λ card. card)
  reads fuel k1 k2 w bytes passed enough whole =
      Says-bind (wait_for (λ c. c == 254) fuel) _ (replicate (length w + 1) 255) _ (w ++ (254 ∷ []))
        _ 254 _ (λ card. card) (λ card. card)
        (omega (arith, length-append w (254 ∷ []), length-replicate {A = ℕ} (length w + 1) 255))
        (Says-wait_for (λ c. c == 254) fuel 254 w passed refl enough)
        (Says-bind (receive 512) _ (replicate 512 255) _ bytes _ _ _ (λ card. card) (λ card. card)
          (omega (arith, whole)) (Says-receive 512 bytes whole)
          (Says-result (send (255 ∷ 255 ∷ [])) _ (255 ∷ 255 ∷ []) (k1 ∷ k2 ∷ []) tt (λ card. card)
            (Says-send (255 ∷ 255 ∷ []) (k1 ∷ k2 ∷ []) refl)))

  -- What follows the command of a write.
  abbrev pub block_sent : List ℕ → ℕ → List ℕ
  block_sent bytes busy =
      (255 ∷ 255 ∷ 254 ∷ []) ++ (bytes ++ ((255 ∷ 255 ∷ 255 ∷ []) ++ replicate (busy + 1) 255))

  pub writes :
      (fuel : ℕ) (bytes g3 g h busy : List ℕ)
      → length bytes ≡ 512
      → length g3 ≡ 3
      → length g ≡ 512
      → length h ≡ 3
      → AllPassed is_idle busy
      → length busy < fuel
      → Says
          (send (255 ∷ 255 ∷ 254 ∷ []) >>= λ _. send bytes >>= λ _.
            send (255 ∷ 255 ∷ 255 ∷ []) >>= λ _. wait_for is_idle fuel >>= λ _. pure (ok tt))
          (block_sent bytes (length busy))
          (g3 ++ (g ++ (h ++ (busy ++ (255 ∷ [])))))
          (ok tt)
          (λ card. card)
  writes fuel bytes g3 g h busy whole e3 eg eh passed enough =
      Says-bind (send (255 ∷ 255 ∷ 254 ∷ [])) _ (255 ∷ 255 ∷ 254 ∷ []) _ g3 _ tt _ (λ card. card)
        (λ card. card) (omega (arith, e3)) (Says-send (255 ∷ 255 ∷ 254 ∷ []) g3 (omega (arith, e3)))
        (Says-bind (send bytes) _ bytes _ g _ tt _ (λ card. card) (λ card. card)
          (omega (arith, whole, eg)) (Says-send bytes g (omega (arith, whole, eg)))
          (Says-bind (send (255 ∷ 255 ∷ 255 ∷ [])) _ (255 ∷ 255 ∷ 255 ∷ []) _ h _ tt _
            (λ card. card) (λ card. card) (omega (arith, eh))
            (Says-send (255 ∷ 255 ∷ 255 ∷ []) h (omega (arith, eh)))
            (Says-result (wait_for is_idle fuel) _ (replicate (length busy + 1) 255)
              (busy ++ (255 ∷ [])) 255 (λ card. card)
              (Says-wait_for is_idle fuel 255 busy passed refl enough))))
