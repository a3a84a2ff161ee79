-- ===== src/Ext2/Monad/Keeps.antt =====
-- What a computation leaves as it was: one rule for each way to build it.
use embext.Base.{◌≡◌, refl, ◌∙◌, Bool, true, false, Option, none, some, if◌then◌else◌, arith}
use embext.Driver.{Reply, ok, failed}
use embext.Ext2.Monad.{M, pure, undefined, defined, written, get, modify, on_reply, ◌>>=◌}
use embext.Ext2.Monad.{continue}

-- Whatever `m` returns, `p` of the state is what it was.
pub record Keeps {S A K : Type 0} (p : S → K) (m : M S A) : Type 0 where
  pub at : (s : S) (a : A) (s' : S) → m s ≡ some (a, s') → p s' ≡ p s

module _ {S K : Type 0} {p : S → K} where
  pub Keeps-pure : {A : Type 0} (a : A) → Keeps p (pure {S = S} a)
  unfolding pure
  Keeps-pure a = record { at = λ s b s' h. cc }

  pub Keeps-undefined : {A : Type 0} → Keeps p (undefined {S = S} {A = A})
  unfolding undefined
  Keeps-undefined = record { at = λ s b s' h. cc }

  pub Keeps-defined : {A : Type 0} (o : Option A) → Keeps p (defined {S = S} o)
  unfolding defined
  Keeps-defined none = record { at = λ s b s' h. cc }
  Keeps-defined (some a) = record { at = λ s b s' h. cc }

  pub Keeps-written : {A : Type 0} (r : Reply A) → Keeps p (written {S = S} r)
  unfolding written
  Keeps-written (ok a) = record { at = λ s b s' h. cc }
  Keeps-written failed = record { at = λ s b s' h. cc }

  pub Keeps-get : Keeps p (get {S = S})
  unfolding get
  Keeps-get = record { at = λ s b s' h. cc }

  pub Keeps-modify : (f : S → S) → ((s : S) → p (f s) ≡ p s) → Keeps p (modify f)
  unfolding modify
  Keeps-modify f same = record { at = λ s b s' h. ground (arith, h, same s) }

  pub Keeps-if :
      {A : Type 0} (b : Bool) (m n : M S A) → Keeps p m → Keeps p n → Keeps p (if b then m else n)
  Keeps-if true m n km kn = km
  Keeps-if false m n km kn = kn

  pub Keeps-on_reply :
      {A B : Type 0} (r : Reply A) (m : M S B) (f : A → M S B)
      → Keeps p m
      → ((a : A) → Keeps p (f a))
      → Keeps p (on_reply r m f)
  unfolding on_reply
  Keeps-on_reply (ok a) m f km kf = kf a
  Keeps-on_reply failed m f km kf = km

  pub Keeps-bind :
      {A B : Type 0} (m : M S A) (f : A → M S B)
      → Keeps p m
      → ((a : A) → Keeps p (f a))
      → Keeps p (m >>= f)
  unfolding ◌>>=◌
  Keeps-bind {A} m f km kf = record { at = λ s b s' h. after s (m s) refl b s' h }
    where
      after :
          (s : S) (o : Option (A × S))
          → m s ≡ o
          → (b : _) (s' : S) → continue o f ≡ some (b, s')
          → p s' ≡ p s
      after s none e b s' h = cc
      after s (some (a, t)) e b s' h = (kf a).at t b s' h ∙ km.at s a t e

pub ruleset keeps_rules = (
  Keeps-pure, Keeps-undefined, Keeps-defined, Keeps-written, Keeps-get, Keeps-if, Keeps-on_reply,
  Keeps-bind,
)
