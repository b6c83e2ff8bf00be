-- ===== src/Py/Exec.antt =====
-- Methods that change an object and may raise: what was written before a raise stays written, so
-- the object comes back beside the exception too.
use volttron_core.Prelude.{Bool, true, false}
use volttron_core.Py.Result.{Exception, Result, ok, raised}

abbrev pub Exec {ℓ κ} : Type ℓ → Type κ → Type (ℓ ⊔ κ)
Exec S A = S → Result A × S

module _ {ℓ κ} {S : Type ℓ} {A : Type κ} where
  unfoldable pub gets : (S → A) → Exec S A
  gets read now = (ok (read now), now)

  unfoldable pub lift : Result A → Exec S A
  lift result now = (result, now)

  unfoldable pub raise : Exception → Exec S A
  raise why now = (raised why, now)

  unfoldable pub pure : A → Exec S A
  pure value now = (ok value, now)

unfoldable pub modify {ℓ} : {S : Type ℓ} → (S → S) → Exec S (Unit {0})
modify f s = (ok tt, f s)

-- `assert b`, `if not b: raise e`
unfoldable pub guard {ℓ} : {S : Type ℓ} → Bool → Exception → Exec S (Unit {0})
guard true e s = (ok tt, s)
guard false e s = (raised e, s)

module _ {ℓ κ μ} {S : Type ℓ} {A : Type κ} {B : Type μ} where
  abbrev pub continue : Result A → (A → Exec S B) → Exec S B
  continue (ok a) f s = f a s
  continue (raised e) f s = (raised e, s)

  infixl 5 ◌>>=◌ ◌>>◌
  -- Opening this opens `pure`, `raise`, `lift`, `gets`, `modify` and `guard` too.
  unfoldable pub ◌>>=◌ : Exec S A → (A → Exec S B) → Exec S B
  unfolding pure raise lift gets modify guard
  m >>= f = λ now. let (result, after) = m now in continue result f after

  abbrev pub ◌>>◌ : Exec S A → Exec S B → Exec S B
  m >> n = m >>= λ _. n
