-- ===== src/Py/Returns.antt =====
-- What a method returns, whenever it does: one rule for each way to build a method.
use mathlib.Core.Path.{subst}
use volttron_core.Prelude.{◌≡◌, refl, Bool, true, false, if◌then◌else◌}
use volttron_core.Py.Result.{Exception, Result, ok, raised}
use volttron_core.Py.Exec.{Exec, pure, raise, lift, continue, ◌>>=◌}

-- Every value that the method returns has the property.
pub record Returns {ℓ κ μ} {S : Type ℓ} {A : Type κ} (P : A → Type μ) (m : Exec S A)
    : Type (ℓ ⊔ κ ⊔ μ) where
  pub value : (s : S) (a : A) → (m s).0 ≡ ok a → P a

module _ {ℓ κ μ} {S : Type ℓ} {A : Type κ} {P : A → Type μ} where
  pub Returns-pure : (a : A) → P a → Returns {S = S} P (pure a)
  unfolding pure
  Returns-pure a p = record { value = λ s b e. let q : a ≡ b = cc in subst P q p }

  pub Returns-raise : (why : Exception) → Returns {S = S} P (raise why)
  unfolding raise
  Returns-raise why = record { value = λ s b e. cc }

  pub Returns-if :
      (test : Bool) (m n : Exec S A)
      → (test ≡ true → Returns P m)
      → (test ≡ false → Returns P n)
      → Returns P (if test then m else n)
  Returns-if true m n rm rn = rm refl
  Returns-if false m n rm rn = rn refl

module _ {ℓ κ μ ν} {S : Type ℓ} {A : Type κ} {B : Type ν} {P : B → Type μ} where
  continue_returns :
      (r : Result A) (s : S) (f : A → Exec S B)
      → ((a : A) → r ≡ ok a → Returns P (f a))
      → (b : B) → (continue r f s).0 ≡ ok b
      → P b
  continue_returns (ok a) s f h b e = (h a refl).value s b e
  continue_returns (raised why) s f h b e = cc

  pub Returns-bind :
      (m : Exec S A) (f : A → Exec S B) → ((a : A) → Returns P (f a)) → Returns P (m >>= f)
  unfolding ◌>>=◌
  Returns-bind m f h = record {
    value = λ s b e. let (r, s') = m s in continue_returns r s' f (λ a _. h a) b e;
  }

  -- The rest may use which value was read.
  pub Returns-lift :
      (r : Result A) (f : A → Exec S B)
      → ((a : A) → r ≡ ok a → Returns P (f a))
      → Returns P (lift r >>= f)
  unfolding ◌>>=◌
  Returns-lift r f h = record { value = λ s b e. continue_returns r s f h b e }

module _ {ℓ κ μ ν τ} {S : Type ℓ} {A : Type κ} {B : Type ν} {P : B → Type μ} {Q : A → Type τ} where
  continue_knows :
      (r : Result A) (s : S) (f : A → Exec S B)
      → ((a : A) → r ≡ ok a → Q a)
      → ((a : A) → Q a → Returns P (f a))
      → (b : B) → (continue r f s).0 ≡ ok b
      → P b
  continue_knows (ok a) s f knows h b e = (h a (knows a refl)).value s b e
  continue_knows (raised why) s f knows h b e = cc

  -- The rest may use what is known of the value so far.
  pub Returns-then :
      (m : Exec S A) (f : A → Exec S B)
      → Returns Q m
      → ((a : A) → Q a → Returns P (f a))
      → Returns P (m >>= f)
  unfolding ◌>>=◌
  Returns-then m f known h = record {
    value = λ s b e. let (r, s') = m s in continue_knows r s' f (λ a q. known.value s a q) h b e;
  }
