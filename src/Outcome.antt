-- ===== src/Outcome.antt =====
-- What a call that may panic or wait returns.
use lloogg.Prelude.{Option, none, some}

pub data Outcome {ℓ} (A : Type ℓ) : Type ℓ where
  done : A → Outcome A
  waits : Outcome A
  panics : Outcome A

infixl 5 ◌>>=◌
abbrev pub ◌>>=◌ {ℓ κ} : {A : Type ℓ} {B : Type κ} → Outcome A → (A → Outcome B) → Outcome B
done a >>= f = f a
waits >>= f = waits
panics >>= f = panics

-- A failed assertion.
abbrev pub or_panic {ℓ} : {A : Type ℓ} → Option A → Outcome A
or_panic none = panics
or_panic (some a) = done a

-- A spin loop whose test does not pass yet.
abbrev pub or_wait {ℓ} : {A : Type ℓ} → Option A → Outcome A
or_wait none = waits
or_wait (some a) = done a
