-- ===== src/Ext2/Monad/Preserves.antt =====
-- An invariant of the state that a computation preserves: one rule for each way to build it.
use embext.Base.{◌≡◌, refl, Bool, true, false, Option, none, some, if◌then◌else◌, arith}
use embext.Driver.{Reply, ok, failed}
use embext.Ext2.Monad.{M, pure, undefined, defined, get, modify, on_reply, ◌>>=◌}
use embext.Ext2.Monad.{continue}

-- Whatever `m` returns, it ends in a state with `I` when it starts in one.
pub record Preserves {S A : Type 0} (I : S → Type 0) (m : M S A) : Type 0 where
  pub at : (s : S) (a : A) (s' : S) → I s → m s ≡ some (a, s') → I s'

same_state :
    {S A : Type 0} (a b : A) (s s' : S)
    → ◌≡◌ {A = Option (A × S)} (some (a, s)) (some (b, s'))
    → s ≡ s'
same_state a b s s' e = ground (arith, e)

module _ {S : Type 0} {I : S → Type 0} where
  pub Preserves-pure : {A : Type 0} (a : A) → Preserves I (pure {S = S} a)
  unfolding pure
  Preserves-pure a = record { at = λ s b s' i h. rw (← same_state a b s s' h) i }

  pub Preserves-undefined : {A : Type 0} → Preserves I (undefined {S = S} {A = A})
  unfolding undefined
  Preserves-undefined = record { at = λ s b s' i h. absurd (ground (arith, h)) }

  pub Preserves-defined : {A : Type 0} (o : Option A) → Preserves I (defined {S = S} o)
  unfolding defined
  Preserves-defined none = record { at = λ s b s' i h. absurd (ground (arith, h)) }
  Preserves-defined (some a) = record { at = λ s b s' i h. rw (← same_state a b s s' h) i }

  pub Preserves-modify : (f : S → S) → ((s : S) → I s → I (f s)) → Preserves I (modify f)
  unfolding modify
  Preserves-modify f keeps = record {
    at = λ s b s' i h. rw (← same_state tt b (f s) s' h) (keeps s i);
  }

  pub Preserves-if :
      {A : Type 0} (b : Bool) (m n : M S A)
      → Preserves I m
      → Preserves I n
      → Preserves I (if b then m else n)
  Preserves-if true m n pm pn = pm
  Preserves-if false m n pm pn = pn

  pub Preserves-on_reply :
      {A B : Type 0} (r : Reply A) (m : M S B) (f : A → M S B)
      → Preserves I m
      → ((a : A) → Preserves I (f a))
      → Preserves I (on_reply r m f)
  unfolding on_reply
  Preserves-on_reply (ok a) m f pm pf = pf a
  Preserves-on_reply failed m f pm pf = pm

  pub Preserves-bind :
      {A B : Type 0} (m : M S A) (f : A → M S B)
      → Preserves I m
      → ((a : A) → Preserves I (f a))
      → Preserves I (m >>= f)
  unfolding ◌>>=◌
  Preserves-bind {A} m f pm pf = record { at = λ s b s' i h. after s (m s) refl b s' i h }
    where
      after :
          (s : S) (o : Option (A × S))
          → m s ≡ o
          → (b : _) (s' : S) → I s
          → continue o f ≡ some (b, s')
          → I s'
      after s none e b s' i h = absurd (ground (arith, h))
      after s (some (a, t)) e b s' i h = (pf a).at t b s' (pm.at s a t i e) h

  -- What follows may count on the invariant of the state that it has looked at.
  pub Preserves-get :
      {B : Type 0} (f : S → M S B) → ((s : S) → I s → Preserves I (f s)) → Preserves I (get >>= f)
  unfolding ◌>>=◌
  Preserves-get f pf = record { at = λ s b s' i h. (pf s i).at s b s' i h }

pub ruleset preserves_rules = (
  Preserves-pure, Preserves-undefined, Preserves-defined, Preserves-if, Preserves-on_reply,
  Preserves-get, Preserves-bind,
)
