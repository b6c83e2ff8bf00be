-- ===== src/Py/Result.antt =====
-- Exceptions as values, and methods that change an object and may raise: what was written before
-- a raise stays written, so the state comes back beside the exception too.
use volttron_core.Prelude.{ℕ, List, String, Bool, true, false, ◌≡◌, ◌⊎◌, inl, inr, refl}

pub data Errno : Type 0 where
  host_unreachable again : Errno
  other_errno : Errno

pub data Exception : Type 0 where
  key_error type_error value_error index_error attribute_error assertion_error : Exception
  not_implemented_error keyboard_interrupt : Exception
  runtime_error timeout unreachable vip_error remote_error method_not_found : Exception
  zmq_error : Errno → Exception
  auth_entry_invalid auth_file_index_error : Exception
  auth_entry_exists : List ℕ → Exception
  error : String → Exception

-- `except Exception`
unfoldable pub is_exception : Exception → Bool
is_exception keyboard_interrupt = false
is_exception timeout = false
is_exception e = true

pub data Result {ℓ} (A : Type ℓ) : Type ℓ where
  ok : A → Result A
  raised : Exception → Result A

infixl 5 ◌>>=◌ ◌>>◌
abbrev pub ◌>>=◌ {ℓ κ} : {A : Type ℓ} {B : Type κ} → Result A → (A → Result B) → Result B
ok a >>= f = f a
raised e >>= f = raised e

abbrev pub ◌>>◌ {ℓ κ} : {A : Type ℓ} {B : Type κ} → Result A → Result B → Result B
m >> k = m >>= λ _. k

-- What a block that returns has passed through.
pub bind-eq-ok {ℓ κ} :
    {A : Type ℓ} {B : Type κ} (first : Result A) (rest : A → Result B) (b : B)
    → (first >>= rest) ≡ ok b
    → (a : A) × (first ≡ ok a) × (rest a ≡ ok b)
bind-eq-ok (ok a) rest b e = (a, refl, e)
bind-eq-ok (raised why) rest b e = cc

pub Result-cases {ℓ} :
    {A : Type ℓ} (r : Result A) → ((a : A) × (r ≡ ok a)) ⊎ ((why : Exception) × (r ≡ raised why))
Result-cases (ok a) = inl (a, refl)
Result-cases (raised why) = inr (why, refl)

-- What a block returns, whenever it does.
pub record Yields {ℓ κ} {A : Type ℓ} (P : A → Type κ) (result : Result A) : Type (ℓ ⊔ κ) where
  pub value : (a : A) → result ≡ ok a → P a

pub Yields-ok {ℓ κ} : {A : Type ℓ} {P : A → Type κ} (a : A) → P a → Yields P (ok a)
Yields-ok a p = record { value = λ b e. let same : a ≡ b = cc in rw (← same) p }

pub Yields-bind {ℓ κ μ} :
    {A : Type ℓ} {B : Type κ} {P : B → Type μ} (first : Result A) (rest : A → Result B)
    → ((a : A) → first ≡ ok a → Yields P (rest a))
    → Yields P (first >>= rest)
Yields-bind (ok a) rest h = h a refl
Yields-bind (raised why) rest h = record { value = λ b e. cc }
