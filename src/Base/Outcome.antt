-- ===== src/Base/Outcome.antt =====
-- Code that may fail to return: `none` is a loop that does not end.
use mathlib.Core.Path.{◌≡◌, refl, ap, subst}
use mathlib.Core.Option.{Option, none, some}

infixl 5 ◌>>=◌
abbrev pub ◌>>=◌ {ℓ κ} : {A : Type ℓ} {B : Type κ} → Option A → (A → Option B) → Option B
none >>= f = none
some a >>= f = f a

abbrev pub value_or {ℓ} : {A : Type ℓ} → A → Option A → A
value_or a none = a
value_or a (some b) = b

-- The code returns, with a result of which `P` holds.
pub data Returns {ℓ} {A : Type ℓ} (P : A → Type 0) : Option A → Type ℓ where
  returns : {a : A} → P a → Returns P (some a)

module _ {ℓ} {A : Type ℓ} {P : A → Type 0} where
  pub bind {κ} :
      {B : Type κ} {Q : B → Type 0} {m : Option A} {f : A → Option B}
      → Returns P m
      → ((a : A) → P a → Returns Q (f a))
      → Returns Q (m >>= f)
  bind (returns p) next = next _ p

  pub mono : {Q : A → Type 0} {m : Option A} → Returns P m → ((a : A) → P a → Q a) → Returns Q m
  mono (returns p) weaken = returns (weaken _ p)

  pub Returns-some : {m : Option A} → Returns P m → (a : A) × (m ≡ some a) × P a
  Returns-some (returns {a} p) = (a, refl, p)

  pub Returns-at : {m : Option A} {a : A} → Returns P m → m ≡ some a → P a
  Returns-at {a = a} (returns p) e = subst P (ap (value_or a) e) p
