-- ===== src/Fault.antt =====
-- Undefined behaviour of C as `none`: an access out of an array's bounds, a division by zero, a
-- shift by more bits than the type has.
use embext.Base.{ℕ, ◌/◌, ◌%◌, Option, none, some, ◌==◌, if◌then◌else◌}

infixl 5 ◌>>=◌ ◌>>◌
abbrev pub ◌>>=◌ {ℓ κ} : {A : Type ℓ} {B : Type κ} → Option A → (A → Option B) → Option B
none >>= f = none
some a >>= f = f a

abbrev pub ◌>>◌ {ℓ} : {B : Type ℓ} → Option (Unit {0}) → Option B → Option B
m >> k = m >>= λ _. k

-- `a / b` and `a % b` of unsigned operands.
abbrev pub checked_div : ℕ → ℕ → Option ℕ
checked_div a b = if b == 0 then none else some (a / b)

abbrev pub checked_mod : ℕ → ℕ → Option ℕ
checked_mod a b = if b == 0 then none else some (a % b)
