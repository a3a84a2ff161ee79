-- ===== src/Driver.antt =====
-- src/block.h: what the filesystem may ask of a block driver, and the laws that it relies on.
-- A device that meets `IsReady` answers for every block below its volume size.
use embext.Base.{ℕ, ◌<◌, ◌≡◌, ◌≢◌, Option, some, List, length}

-- What a call returns beside its effect: `failed` is any result but 0.
pub data Reply {ℓ} (A : Type ℓ) : Type ℓ where
  ok : A → Reply A
  failed : Reply A

-- `BLOCK_SIZE`, which `block_get_block_size` returns.
abbrev pub block_size : ℕ
block_size = 512

-- The laws of a write of `bytes` to block `b`, which turned device `d` into `d'`.
pub record Wrote {Device : Type 0} (IsReady : Device → Type 0) (volume_size read_only : Device → ℕ)
    (block_read : ℕ → Device → Option (Reply (List ℕ))) (b : ℕ) (bytes : List ℕ) (d d' : Device)
    : Type 0 where
  pub ready : IsReady d'
  pub same_size : volume_size d' ≡ volume_size d
  pub same_read_only : read_only d' ≡ read_only d
  pub written : block_read b d' ≡ some (ok bytes)
  pub others : (c : ℕ) → c < volume_size d → c ≢ b → block_read c d' ≡ block_read c d

-- The outer `none` is undefined behaviour in the driver. A read that fails leaves the caller's
-- buffer alone, and a write that fails leaves the device alone.
pub record BlockDriver : Type 1 where
  pub Device : Type 0
  pub block_read : ℕ → Device → Option (Reply (List ℕ))
  pub block_write : ℕ → List ℕ → Device → Option (Reply Device)
  pub volume_size : Device → ℕ
  pub read_only : Device → ℕ
  pub IsReady : Device → Type 0
  pub read_inside :
      (d : Device) (b : ℕ)
      → IsReady d
      → b < volume_size d
      → (bytes : List ℕ) × (block_read b d ≡ some (ok bytes)) × (length bytes ≡ block_size)
  pub write_inside :
      (d : Device) (b : ℕ) (bytes : List ℕ)
      → IsReady d
      → b < volume_size d
      → length bytes ≡ block_size
      → (d' : Device) × (block_write b bytes d ≡ some (ok d'))
        × Wrote IsReady volume_size read_only block_read b bytes d d'
