-- ===== src/Auth/Built.antt =====
-- The fields of an `AuthEntry` (services/auth/auth_service.py) once they are made.
use volttron_core.Prelude.{
  String, ◌≡◌, refl, ap, Bool, true, not, List, [], ◌∷◌, ◌&&◌, arith, Bool-cases, inl, inr,
}
use volttron_core.Py.Dict.{Dict}
use volttron_core.Py.Result.{ok, bind-eq-ok, ◌>>=◌}
use volttron_core.Py.Value.{
  Value, null, bool, int, str, list, dict, nil, cons, end, field, to_items, of_items, to_fields,
  of_fields, truthy,
}
use volttron_core.Auth.Fields.{
  AuthEnv, is_regex_text, regex_of, new_string, new_list, elements, build_list, build_text,
  build_field, text_of, field_names,
}

pub of-to_items : (vs : List Value) → of_items (to_items vs) ≡ vs
of-to_items [] = refl
of-to_items (v ∷ vs) = ap (λ rest. v ∷ rest) (of-to_items vs)

pub of-to_fields : (d : Dict Value) → of_fields (to_fields d) ≡ d
of-to_fields [] = refl
of-to_fields ((k, v) ∷ d) = ap (λ rest. (k, v) ∷ rest) (of-to_fields d)

module _ (env : AuthEnv) where
  abbrev refused : String → Bool
  refused s = is_regex_text s && not (env.compiles (regex_of s))

  -- A text that was built is built again as it is.
  new_string-new_string : (s t : String) → new_string env s ≡ ok t → new_string env t ≡ ok t
  unfolding new_string
  new_string-new_string s t e = elim (Bool-cases (refused s)) [
    | inl bad ↦ absurd (ground arith)
    | inr good ↦ let same : s ≡ t = ground arith in rw (← same) (rw good refl)
  ]

  pub new_list_parts :
      (v : Value) (vs built : List Value)
      → new_list env (v ∷ vs) ≡ ok built
      → (s : String) × (rest : List Value) × (new_string env (text_of env v) ≡ ok s)
        × (new_list env vs ≡ ok rest)
        × (str s ∷ rest ≡ built)
  unfolding new_list
  new_list_parts v vs built e =
      let (s, first, then_rest) =
        bind-eq-ok (new_string env (text_of env v))
          (λ s. new_list env vs >>= λ rest. ok (str s ∷ rest)) built e in
      let (rest, more, whole) =
        bind-eq-ok (new_list env vs) (λ rest. ok (str s ∷ rest)) built then_rest in
      (s, rest, first, more, cc)

  new_list_again :
      (s : String) (rest : List Value)
      → new_string env s ≡ ok s
      → new_list env rest ≡ ok rest
      → new_list env (str s ∷ rest) ≡ ok (str s ∷ rest)
  unfolding new_list text_of
  new_list_again s rest first more = rw (first, more) refl

  new_list-new_list :
      (vs built : List Value) → new_list env vs ≡ ok built → new_list env built ≡ ok built
  unfolding new_list
  new_list-new_list [] built e = let none_built : [] ≡ built = cc in rw (← none_built) refl
  new_list-new_list (v ∷ vs) built e =
      let (s, rest, first, more, whole) = new_list_parts v vs built e in
      rw (← whole) (
        new_list_again s rest (new_string-new_string (text_of env v) s first)
          (new_list-new_list vs rest more))

  list_again :
      (s : String) (rest : List Value)
      → new_list env (str s ∷ rest) ≡ ok (str s ∷ rest)
      → build_field env (list (to_items (str s ∷ rest))) ≡ ok (list (to_items (str s ∷ rest)))
  unfolding build_field build_text build_list elements truthy
  list_again s rest again = rw (of-to_items rest, again) refl

  list_again_of :
      (v : Value) (vs built : List Value)
      → new_list env (v ∷ vs) ≡ ok built
      → build_field env (list (to_items built)) ≡ ok (list (to_items built))
  list_again_of v vs built e =
      let (s, rest, first, more, cut) = new_list_parts v vs built e in
      let again =
        new_list_again s rest (new_string-new_string (text_of env v) s first)
          (new_list-new_list vs rest more) in
      rw (← cut) (list_again s rest again)

  build_list-cons :
      (v : Value) (vs : List Value) (w : Value)
      → (new_list env (v ∷ vs) >>= λ built. ok (list (to_items built))) ≡ ok w
      → build_field env w ≡ ok w
  build_list-cons v vs w e =
      let (built, b, whole) =
        bind-eq-ok (new_list env (v ∷ vs)) (λ built. ok (list (to_items built))) w e in
      let same : list (to_items built) ≡ w = cc in rw (← same) (list_again_of v vs built b)

  text_again :
      (t : String)
      → truthy (str t) ≡ true
      → new_string env t ≡ ok t
      → build_field env (str t) ≡ ok (str t)
  unfolding build_field build_text
  text_again t full again = rw (full, again) refl

  new_string-eq : (s t : String) → new_string env s ≡ ok t → s ≡ t
  unfolding new_string
  new_string-eq s t e = elim (Bool-cases (refused s)) [
    | inl bad ↦ absurd (ground arith)
    | inr good ↦ ground arith
  ]

  build_text-str :
      (s : String) (w : Value)
      → truthy (str s) ≡ true
      → (new_string env s >>= λ t. ok (str t)) ≡ ok w
      → build_field env w ≡ ok w
  build_text-str s w full e =
      let (t, made, whole) = bind-eq-ok (new_string env s) (λ t. ok (str t)) w e in
      let same : str t ≡ w = cc in
      let st = new_string-eq s t made in
      let again = new_string-new_string s t made in rw (← same) (text_again t (rw st at full) again)

  -- A field that was made is made again as it is.
  pub build_field-build_field : (v w : Value) → build_field env v ≡ ok w → build_field env w ≡ ok w
  unfolding build_field build_text build_list elements truthy field_names
  build_field-build_field v w e = elim (Bool-cases (truthy v)) [
    | inl true_value ↦ built v w true_value (rw true_value at e)
    | inr false_value ↦ let none_made : null ≡ w = cc (rw false_value at e) in rw (← none_made) refl
  ]
    where
      built : (v w : Value) → truthy v ≡ true → build_text env v ≡ ok w → build_field env w ≡ ok w
      built (str s) w t e = build_text-str s w t e
      built (list (cons v vs)) w t e = build_list-cons v (of_items vs) w e
      built (dict (field k v fs)) w t e = build_list-cons (str k) (field_names fs) w e
      built (list nil) w t e = cc
      built (dict end) w t e = cc
      built null w t e = cc
      built (bool b) w t e = cc
      built (int n) w t e = cc
