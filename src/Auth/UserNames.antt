-- ===== src/Auth/UserNames.antt =====
-- The names of users of services/auth/auth_service.py: what `load_user` reads of `dump_user`.
use Prim.Native.Char.{Char, char, code}
use Prim.Native.String.append as clause
use Prim.Native.String.{◌++◌ as append}
use volttron_core.Prelude.{
  String, ◌≡◌, refl, Bool, true, false, List, [], ◌∷◌, ◌||◌, ◌==◌, nat_eq, arith, All, Bool-cases,
  inl, inr,
}
use volttron_core.Auth.User.{is_special, escape, joined, dump_user, put, plain, escaped, load_user}

-- "\x00" in s
abbrev pub has_nul : String → Bool
has_nul String.[] = false
has_nul (String.◌∷◌ c s) = code c == 0 || has_nul s

-- The first part starts with the text.
abbrev onto : String → List String → List String
onto String.[] parts = parts
onto (String.◌∷◌ c a) parts = put c (onto a parts)

abbrev backslash : Char
backslash = char 92 tt

load_user-plain :
    (c : Char) (s : String)
    → (code c == 92) ≡ false
    → load_user (String.◌∷◌ c s) ≡ plain c (load_user s)
unfolding load_user
load_user-plain c String.[] h = refl
load_user-plain c (String.◌∷◌ d s) h = ground arith

load_user-escaped :
    (c : Char) (s : String)
    → (code c == 10) ≡ false
    → load_user (String.◌∷◌ backslash (String.◌∷◌ c s)) ≡ escaped c (load_user s)
unfolding load_user
load_user-escaped c s h = ground arith

onto-fresh : (a : String) (parts : List String) → onto a (String.[] ∷ parts) ≡ a ∷ parts
unfolding put
onto-fresh String.[] parts = refl
onto-fresh (String.◌∷◌ c a) parts = rw (onto-fresh a parts) refl

escaped_special :
    (c : Char) (parts : List String) → is_special c ≡ true → escaped c parts ≡ put c parts
unfolding escaped is_special
escaped_special c parts h = ground arith

plain_other :
    (c : Char) (parts : List String)
    → is_special c ≡ false
    → (code c == 0) ≡ false
    → plain c parts ≡ put c parts
unfolding plain is_special
plain_other c parts h g = ground arith

-- An argument goes before what follows it, whatever that is.
load_user-escape :
    (a s : String) → has_nul a ≡ false → load_user (append (escape a) s) ≡ onto a (load_user s)
unfolding escape is_special
load_user-escape String.[] s h = rw (clause.nil s) refl
load_user-escape (String.◌∷◌ c a) s h =
    let rest = load_user-escape a s (ground arith) in
    elim (Bool-cases (is_special c)) [
      | inl special ↦ rw special (
          rw
            (
              clause.cons backslash (String.◌∷◌ c (escape a)) s,
              clause.cons c (escape a) s,
              load_user-escaped c (append (escape a) s) (ground arith),
              rest,
            )
            (escaped_special c (onto a (load_user s)) special))
      | inr other ↦ rw other (
          rw
            (
              clause.cons c (escape a) s,
              load_user-plain c (append (escape a) s) (ground arith),
              rest,
            )
            (plain_other c (onto a (load_user s)) other (ground arith)))
    ]

load_user_lem : load_user String.[] ≡ String.[] ∷ []
unfolding load_user
load_user_lem = refl

plain_comma : (parts : List String) → plain (char 44 tt) parts ≡ String.[] ∷ parts
unfolding plain
plain_comma parts = refl

load_user-joined :
    (args : List String)
    → All (λ a. has_nul a ≡ false) args
    → load_user (joined args) ≡ String.[] ∷ args
unfolding joined
load_user-joined [] h = load_user_lem
load_user-joined (arg ∷ args) (first, h) =
    let following = load_user-escape arg (joined args) first in
    let comma = load_user-plain (char 44 tt) (append (escape arg) (joined args)) refl in
    rw (comma, following, load_user-joined args h, onto-fresh arg args) (plain_comma (arg ∷ args))

-- load_user gives back the arguments of dump_user, whatever commas and backslashes are in them, if
-- there is at least one and none of them contains the character "\x00".
pub load_user-dump_user :
    (arg : String) (args : List String)
    → has_nul arg ≡ false
    → All (λ a. has_nul a ≡ false) args
    → load_user (dump_user (arg ∷ args)) ≡ arg ∷ args
unfolding dump_user
load_user-dump_user arg args first h =
    rw (load_user-escape arg (joined args) first, load_user-joined args h) (onto-fresh arg args)
