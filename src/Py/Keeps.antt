-- ===== src/Py/Keeps.antt =====
-- Invariants of methods: one rule for each way to build one.
use volttron_core.Prelude.{◌≡◌, refl, Bool, true, false, if◌then◌else◌}
use volttron_core.Py.Result.{Exception, Result, ok, raised}
use volttron_core.Py.Exec.{Exec, pure, raise, lift, gets, guard, continue, ◌>>=◌, ◌>>◌}

-- A method that leaves the object with the property it found, also when it raises.
pub record Keeps {ℓ κ μ} {S : Type ℓ} {A : Type κ} (P : S → Type μ) (m : Exec S A)
    : Type (ℓ ⊔ μ) where
  pub at : (s : S) → P s → P (m s).1

module _ {ℓ κ μ} {S : Type ℓ} {A : Type κ} {P : S → Type μ} where
  -- Every method that does not write.
  Keeps-reading : (r : S → Result A) → Keeps P λ s. (r s, s)
  Keeps-reading r = record { at = λ _ given. given }

  pub Keeps-gets : (read : S → A) → Keeps P (gets read)
  unfolding gets
  Keeps-gets read = Keeps-reading λ s. ok (read s)

  pub Keeps-raise : (why : Exception) → Keeps P (raise {A = A} why)
  unfolding raise
  Keeps-raise why = Keeps-reading λ _. raised why

  pub Keeps-pure : (value : A) → Keeps P (pure value)
  unfolding pure
  Keeps-pure value = Keeps-reading λ _. ok value

  pub Keeps-lift : (result : Result A) → Keeps P (lift result)
  unfolding lift
  Keeps-lift result = Keeps-reading λ _. result

  pub Keeps-if :
      (test : Bool) (m n : Exec S A) → Keeps P m → Keeps P n → Keeps P (if test then m else n)
  Keeps-if true m n km kn = km
  Keeps-if false m n km kn = kn

pub Keeps-guard {ℓ μ} :
    {S : Type ℓ} {P : S → Type μ} (test : Bool) (why : Exception) → Keeps P (guard {S = S} test why)
unfolding guard
Keeps-guard true why = Keeps-reading λ _. ok tt
Keeps-guard false why = Keeps-reading λ _. raised why

module _ {ℓ κ μ ν} {S : Type ℓ} {A : Type κ} {B : Type ν} {P : S → Type μ} where
  Keeps-continue :
      (r : Result A) (s : S) (f : A → Exec S B)
      → ((a : A) → Keeps P (f a))
      → P s
      → P (continue r f s).1
  Keeps-continue (ok a) s f kf h = (kf a).at s h
  Keeps-continue (raised e) s f kf h = h

  pub Keeps-bind :
      (first : Exec S A) (rest : A → Exec S B)
      → Keeps P first
      → ((a : A) → Keeps P (rest a))
      → Keeps P (first >>= rest)
  unfolding ◌>>=◌
  Keeps-bind first rest before after = record {
    at = λ now given.
        let (result, next) = first now in
        Keeps-continue result next rest after (before.at now given);
  }

  pub Keeps-then : (m : Exec S A) (n : Exec S B) → Keeps P m → Keeps P n → Keeps P (m >> n)
  Keeps-then m n km kn = Keeps-bind m (λ _. n) km (λ _. kn)

-- A method that keeps `P` and whose value, if it returns one, has the property `Q`.
pub record Gives {ℓ κ μ ν} {S : Type ℓ} {A : Type κ} (P : S → Type μ) (Q : A → Type ν)
    (m : Exec S A) : Type (ℓ ⊔ κ ⊔ μ ⊔ ν) where
  pub keeps : Keeps P m
  pub gives : (s : S) → P s → (a : A) → (m s).0 ≡ ok a → Q a

module _ {ℓ κ μ ν ξ} {S : Type ℓ} {A : Type κ} {B : Type ν} {P : S → Type μ} {Q : A → Type ξ} where
  continue_given :
      (r : Result A) (s : S) (f : A → Exec S B)
      → ((a : A) → r ≡ ok a → Q a)
      → ((a : A) → Q a → Keeps P (f a))
      → P s
      → P (continue r f s).1
  continue_given (ok a) s f given kf h = (kf a (given a refl)).at s h
  continue_given (raised e) s f given kf h = h

  -- The rest of a block may use what the value before it has.
  pub Gives-bind :
      (first : Exec S A) (rest : A → Exec S B)
      → Gives P Q first
      → ((a : A) → Q a → Keeps P (rest a))
      → Keeps P (first >>= rest)
  unfolding ◌>>=◌
  Gives-bind first rest g kf = record {
    at = λ now given.
        let (result, next) = first now in
        continue_given result next rest (g.gives now given) kf (g.keeps.at now given);
  }

pub Gives-lift {ℓ κ μ ν} :
    {S : Type ℓ} {A : Type κ} {P : S → Type μ} {Q : A → Type ν} (r : Result A)
    → ((a : A) → r ≡ ok a → Q a)
    → Gives P Q (lift {S = S} r)
unfolding lift
Gives-lift r h = record { keeps = Keeps-lift r; gives = λ s p. h }

pub ruleset keeps_rules =
    (Keeps-pure, Keeps-raise, Keeps-lift, Keeps-gets, Keeps-if, Keeps-bind, Keeps-then)
