-- ===== src/Ext2/Monad.antt =====
-- The monad that the functions of src/embext.c run in: state passing with undefined behaviour.
pub mod Keeps
pub mod Preserves
use embext.Base.{ℕ, Option, none, some}
use embext.Driver.{Reply, ok, failed}
use embext.Ext2.Layout.{Superblock}
use embext.Ext2.State.{Context, Volume, Fs, FileEnt}

-- A computation on a state; `none` is undefined behaviour.
abbrev pub M : Type 0 → Type 0 → Type 0
M S A = S → Option (A × S)

module _ {S A : Type 0} where
  pub pure : A → M S A
  pure a s = some (a, s)

  pub undefined : M S A
  undefined s = none

  pub defined : Option A → M S A
  defined none s = none
  defined (some a) s = some (a, s)

  -- The value of a call whose result the caller goes on to use whether or not it succeeded: on
  -- failure the variable was never written, and its use is undefined.
  pub written : Reply A → M S A
  written (ok a) s = some (a, s)
  written failed s = none

module _ {S : Type 0} where
  pub get : M S S
  get s = some (s, s)

  pub modify : (S → S) → M S (Unit {0})
  modify f s = some (tt, f s)

module _ {S A B : Type 0} where
  -- A test of a call's result.
  unfoldable pub on_reply : Reply A → M S B → (A → M S B) → M S B
  on_reply (ok a) no_more go_on = go_on a
  on_reply failed no_more go_on = no_more

  pub continue : Option (A × S) → (A → M S B) → Option (B × S)
  continue none f = none
  continue (some (a, s)) f = f a s

  infixl 5 ◌>>=◌ ◌>>◌
  -- Opening this opens the monad's other operations too.
  unfoldable pub ◌>>=◌ : M S A → (A → M S B) → M S B
  unfolding pure undefined defined written get modify continue on_reply
  ◌>>=◌ m f s = continue (m s) f

  abbrev pub ◌>>◌ : M S A → M S B → M S B
  m >> k = m >>= λ _. k

module _ {Device : Type 0} where
  volume_step : {A : Type 0} → Fs Device → Option (A × Volume Device) → Option (A × Fs Device)
  volume_step s none = none
  volume_step s (some (a, v)) = some (a, record s { volume = v })

  -- A call of a function that takes the context alone.
  unfoldable pub on_volume : {A : Type 0} → M (Volume Device) A → M (Fs Device) A
  unfolding volume_step
  on_volume m s = volume_step s (m s.volume)

  abbrev pub set_context : (Context → Context) → M (Volume Device) (Unit {0})
  set_context f = modify (λ v. record v { context = f v.context })

  abbrev pub set_superblock : (Superblock → Superblock) → M (Volume Device) (Unit {0})
  set_superblock f = set_context (λ c. record c { superblock = f c.superblock })

  abbrev pub set_file : (FileEnt → FileEnt) → M (Fs Device) (Unit {0})
  set_file f = modify (λ s. record s { file = f s.file })

  abbrev pub set_errno : ℕ → M (Fs Device) (Unit {0})
  set_errno e = modify (λ s. record s { errno = e })
