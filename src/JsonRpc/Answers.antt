-- ===== src/JsonRpc/Answers.antt =====
-- Which responses the dispatcher gives.
use mathlib.Core.Path.{subst}
use volttron_core.Prelude.{
  ℕ, suc, ◌≤◌, ◌≡◌, refl, String, false, ◌⊎◌, inl, inr, Option, none, some, List, [], ◌∷◌, arith,
  length, if◌then◌else◌, Bool-cases,
}
use volttron_core.Py.Dict.{Dict, has}
use volttron_core.Py.Exec.{pure}
use volttron_core.Py.Returns.{
  Returns, Returns-pure, Returns-raise, Returns-if, Returns-bind, Returns-lift, Returns-then,
}
use volttron_core.Py.Result.{
  Result, ok, raised, Exception, not_implemented_error, key_error, type_error,
}
use volttron_core.Py.Value.{
  Value, null, bool, int, str, list, dict, of_fields, to_fields, is_null, is_text,
}
use volttron_core.Py.Access.{get_item, get_default}
use volttron_core.JsonRpc.{json_error, json_result}
use volttron_core.JsonRpc.Dispatch.{
  Handlers, Reply, read_params, error_detail, failure, after_method, call_method, report,
  on_error_message, on_error, dispatch_error, dispatch_result, dispatch_method, dispatch_kind,
  dispatch_version, unsupported, dispatch_one, keep_response, dispatch_each,
}
use volttron_core.Py.Result.{is_exception}

-- The "id" of a message, `None` where there is none.
abbrev pub id_of : Value → Result Value
id_of (dict fields) = get_default (dict fields) "id" null
id_of _ = ok null

ok_injective {ℓ} : {A : Type ℓ} {a b : A} → ok a ≡ ok b → a ≡ b
ok_injective e = cc

-- A response to a message with this id: a result with the id, which is not `None`; or an error with
-- the id, or with `None`.
pub data Answers (ident : Value) : Value → Type 0 where
  with_result : (v r : Value) → is_null ident ≡ false → r ≡ json_result ident v → Answers ident r
  with_error :
      (other code : Value) (text : String) (details : List (String × Value)) (r : Value)
      → (other ≡ ident) ⊎ (other ≡ null)
      → r ≡ json_error other code text details
      → Answers ident r

abbrev pub MayAnswer : Value → Option Value → Type 0
MayAnswer ident none = Unit
MayAnswer ident (some r) = Answers ident r

error-Answers :
    (ident code : Value) (text detail : String)
    → Answers ident (error_detail ident code text detail)
unfolding error_detail
error-Answers ident code text detail = with_error ident code text _ _ (inl refl) refl

null-Answers :
    (ident code : Value) (text detail : String) → Answers ident (error_detail null code text detail)
unfolding error_detail
null-Answers ident code text detail = with_error null code text _ _ (inr refl) refl

module _ {S : Type 0} (h : Handlers S) where
  failure-Answers :
      (ident : Value) (name : String) (e : Exception) → Answers ident (failure h ident name e)
  unfolding failure
  failure-Answers ident name not_implemented_error = error-Answers ident _ _ _
  failure-Answers ident name e = with_error ident _ _ _ _ (inl refl) refl

  answer_unless_null :
      (ident answer : Value) (r : Option Value)
      → (is_null ident ≡ false → Answers ident answer)
      → (if is_null ident then none else some answer) ≡ r
      → MayAnswer ident r
  answer_unless_null ident answer r answers e = elim (Bool-cases (is_null ident)) [
    | inl absent ↦ let q : none ≡ r = ground (arith, e, absent) in subst (MayAnswer ident) q tt
    | inr present ↦
        let q : some answer ≡ r = ground (arith, e, present) in
        subst (MayAnswer ident) q (answers present)
  ]

  after_method-MayAnswer :
      (ident : Value) (name : String) (o : Result Value × S) (r : Option Value)
      → (after_method h ident name o).0 ≡ ok r
      → MayAnswer ident r
  unfolding after_method
  after_method-MayAnswer ident name (ok v, s) r e =
      answer_unless_null ident (json_result ident v) r (λ present. with_result v _ present refl)
        (ok_injective e)
  after_method-MayAnswer ident name (raised x, s) r e = elim (Bool-cases (is_exception x)) [
    | inl caught ↦
        answer_unless_null ident (failure h ident name x) r (λ _. failure-Answers ident name x)
          (ok_injective (ground (arith, e, caught)))
    | inr uncaught ↦ absurd (ground (arith, e, uncaught))
  ]

  call_method-Returns :
      (msg ident : Value) (name : String) (params : Value) (parsed : Option (Value × Value))
      (batch : Value)
      → Returns (MayAnswer ident) (call_method h msg ident name params parsed batch)
  unfolding call_method
  call_method-Returns msg ident name params none batch = Returns-pure _ (null-Answers ident _ _ _)
  call_method-Returns msg ident name params (some (args, kwargs)) batch = record {
    value = λ s r e. after_method-MayAnswer ident name _ r e;
  }

  report-Returns :
      (msg ident : Value) (text : String) → Returns (MayAnswer ident) (report h msg ident text)
  unfolding report
  report-Returns msg ident text = Returns-bind _ _ λ _. Returns-pure none tt

  on_error_message-Returns :
      (msg ident err code : Value) (message : Result Value)
      → Returns (MayAnswer ident) (on_error_message h msg ident err code message)
  unfolding on_error_message
  on_error_message-Returns msg ident err code (ok message) =
      Returns-bind _ _ λ details. Returns-bind _ _ λ _. Returns-pure none tt
  on_error_message-Returns msg ident err code (raised key_error) = report-Returns msg ident _
  on_error_message-Returns msg ident err code (raised e) = Returns-raise e

  on_error-Returns :
      (msg ident err : Value) (code : Result Value)
      → Returns (MayAnswer ident) (on_error h msg ident err code)
  unfolding on_error
  on_error-Returns msg ident err (ok code) = on_error_message-Returns msg ident err code _
  on_error-Returns msg ident err (raised type_error) = report-Returns msg ident _
  on_error-Returns msg ident err (raised key_error) = report-Returns msg ident _
  on_error-Returns msg ident err (raised e) = Returns-raise e

  dispatch_error-Returns :
      (msg ident : Value) → Returns (MayAnswer ident) (dispatch_error h msg ident)
  unfolding dispatch_error
  dispatch_error-Returns msg ident =
      Returns-bind _ _ λ err. on_error-Returns msg ident err (get_item err "code")

  dispatch_result-Returns :
      (msg ident : Value) → Returns (MayAnswer ident) (dispatch_result h msg ident)
  unfolding dispatch_result
  dispatch_result-Returns msg ident =
      Returns-bind _ _ λ v. Returns-bind _ _ λ _. Returns-pure none tt

  dispatch_method-Returns :
      (msg ident batch : Value) → Returns (MayAnswer ident) (dispatch_method h msg ident batch)
  unfolding dispatch_method
  dispatch_method-Returns msg ident batch = Returns-bind _ _ λ method.
      Returns-bind _ _
        λ params. call_method-Returns msg ident (h.to_text method) params (read_params params) batch

  dispatch_kind-Returns :
      (members : Dict Value) (ident batch : Value)
      → Returns (MayAnswer ident) (dispatch_kind h members ident batch)
  unfolding dispatch_kind
  dispatch_kind-Returns members ident batch =
      let msg = dict (to_fields members) in
      let by_method =
        Returns-if (has "method" members) (dispatch_method h msg ident batch) (pure none)
          (λ _. dispatch_method-Returns msg ident batch) (λ _. Returns-pure none tt) in
      let by_result =
        Returns-if (has "result" members) (dispatch_result h msg ident)
          (if has "method" members then dispatch_method h msg ident batch else pure none)
          (λ _. dispatch_result-Returns msg ident) (λ _. by_method) in
      Returns-if (has "error" members) (dispatch_error h msg ident) _
        (λ _. dispatch_error-Returns msg ident) (λ _. by_result)

  dispatch_version-Returns :
      (members : Dict Value) (ident : Value) (version : Result Value) (batch : Value)
      → Returns (MayAnswer ident) (dispatch_version h members ident version batch)
  unfolding dispatch_version unsupported
  dispatch_version-Returns members ident (ok version) batch =
      Returns-if (is_text version "2.0") (dispatch_kind h members ident batch)
        (pure (some (unsupported h ident version))) (λ _. dispatch_kind-Returns members ident batch)
        (λ _. Returns-pure _ (error-Answers ident _ _ _))
  dispatch_version-Returns members ident (raised key_error) batch =
      Returns-pure _ (error-Answers ident _ _ _)
  dispatch_version-Returns members ident (raised e) batch = Returns-raise e

  same_id : (m : Reply h) {v w : Value} → v ≡ w → Returns (MayAnswer v) m → Returns (MayAnswer w) m
  same_id m e r = subst (λ w. Returns (MayAnswer w) m) e r

  dispatch_one-Returns :
      (msg ident batch : Value)
      → id_of msg ≡ ok ident
      → Returns (MayAnswer ident) (dispatch_one h msg batch)
  unfolding dispatch_one
  dispatch_one-Returns (dict fields) ident batch i = Returns-lift _ _ λ v found.
      let same : ok v ≡ ok ident = cc (found, i) in
      let reads_id : v ≡ ident = ok_injective same in
      same_id _ reads_id
        (dispatch_version-Returns (of_fields fields) v (get_item (dict fields) "jsonrpc") batch)
  dispatch_one-Returns null ident batch i = Returns-pure _ (null-Answers ident _ _ _)
  dispatch_one-Returns (bool b) ident batch i = Returns-pure _ (null-Answers ident _ _ _)
  dispatch_one-Returns (int n) ident batch i = Returns-pure _ (null-Answers ident _ _ _)
  dispatch_one-Returns (str t) ident batch i = Returns-pure _ (null-Answers ident _ _ _)
  dispatch_one-Returns (list items) ident batch i = Returns-pure _ (null-Answers ident _ _ _)

  -- Whatever message comes and whatever its handlers do: a response, if there is one, is a result
  -- that carries the id of the message, which is then not `None`, or an error that carries the id
  -- or `None`.
  pub dispatch_one-Answers :
      (msg ident batch : Value) (s : S) (r : Value)
      → id_of msg ≡ ok ident
      → (dispatch_one h msg batch s).0 ≡ ok (some r)
      → Answers ident r
  dispatch_one-Answers msg ident batch s r i e =
      (dispatch_one-Returns msg ident batch i).value s (some r) e

  fewer :
      (response : Option Value) (responses : List Value) (n : ℕ)
      → length responses ≤ n
      → length (keep_response response responses) ≤ suc n
  unfolding keep_response
  fewer none responses n h = omega arith
  fewer (some r) responses n h = ground (arith, h)

  each_bounded :
      (msgs : List Value) (batch : Value)
      → Returns (λ rs. length rs ≤ length msgs) (dispatch_each h msgs batch)
  unfolding dispatch_each
  each_bounded [] batch = Returns-pure [] (omega arith)
  each_bounded (msg ∷ msgs) batch = Returns-bind _ _ λ response.
      Returns-then _ _ (each_bounded msgs batch)
        λ responses k. Returns-pure _ (fewer response responses (length msgs) k)

  -- A batch is answered by at most one response for each of its messages, whatever they are.
  pub length-dispatch_each :
      (msgs : List Value) (batch : Value) (s : S) (responses : List Value)
      → (dispatch_each h msgs batch s).0 ≡ ok responses
      → length responses ≤ length msgs
  length-dispatch_each msgs batch s responses e = (each_bounded msgs batch).value s responses e
