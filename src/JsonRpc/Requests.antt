-- ===== src/JsonRpc/Requests.antt =====
-- What the dispatcher does with a request that `json_method` built.
use volttron_core.Prelude.{
  String, ◌≡◌, ◌≢◌, refl, true, Option, none, some, [], ◌∷◌, if◌then◌else◌, Bool-cases, inl, inr,
  arith,
}
use volttron_core.Py.Dict.{lookup, has}
use volttron_core.Py.Exec.{lift, ◌>>=◌}
use volttron_core.Py.Result.{
  Result, Exception, ok, raised, is_exception, key_error, type_error, value_error, index_error,
  attribute_error, assertion_error, keyboard_interrupt, runtime_error, timeout, unreachable,
  vip_error, remote_error, method_not_found, zmq_error, auth_entry_invalid, auth_file_index_error,
  auth_entry_exists, error, not_implemented_error,
}
use volttron_core.Py.Value.{
  Value, Items, Fields, bool, int, cons, field, null, str, list, dict, end, nil, to_fields, truthy,
  is_null,
}
use volttron_core.Py.Access.{get_item, get_default}
use volttron_core.JsonRpc.{json_method, json_result, json_error, params_of}
use volttron_core.JsonRpc.Dispatch.{
  Handlers, dispatch_one, dispatch_version, dispatch_kind, dispatch_method, call_method,
  read_params, after_method, failure, full_info, unhandled_exception,
}

-- The arguments by position and by name that a request carries: where there are both, they come as
-- two arguments by name.
abbrev pub received : Items → Fields → Value × Value
received args kwargs =
    if truthy (list args)
    then (if truthy (dict kwargs)
        then (list nil, dict (to_fields (("*args", list args) ∷ ("**kwargs", dict kwargs) ∷ [])))
        else (list args, dict end))
    else (list nil, dict kwargs)

none_only : (v : Value) → is_null v ≡ true → v ≡ null
unfolding is_null
none_only null e = refl
none_only (bool b) e = cc
none_only (int n) e = cc
none_only (str t) e = cc
none_only (list items) e = cc
none_only (dict fields) e = cc

module _ {S : Type 0} (h : Handlers S) where
  -- What the dispatcher does with such a request before the method returns.
  called-json_method :
      (ident : Value) (name : String) (args : Items) (kwargs : Fields) (batch : Value) (s : S)
      → h.to_text (str name) ≡ name
      → let request = json_method ident name (list args) (dict kwargs) in
        let (by_position, by_name) = received args kwargs in
        dispatch_one h request batch s
        ≡ after_method h ident name (h.method request ident name by_position by_name batch s)
  unfolding dispatch_one dispatch_version dispatch_kind dispatch_method call_method read_params
      json_method params_of get_item get_default lookup has is_null truthy ◌>>=◌ lift
  called-json_method ident name nil end batch s text = elim (Bool-cases (is_null ident)) [
    | inl absent ↦ rw (none_only ident absent, text) refl
    | inr present ↦ rw (present, text) refl
  ]
  called-json_method ident name nil (field k v fs) batch s text =
      elim (Bool-cases (is_null ident)) [
        | inl absent ↦ rw (none_only ident absent, text) refl
        | inr present ↦ rw (present, text) refl
      ]
  called-json_method ident name (cons w ws) end batch s text = elim (Bool-cases (is_null ident)) [
    | inl absent ↦ rw (none_only ident absent, text) refl
    | inr present ↦ rw (present, text) refl
  ]
  called-json_method ident name (cons w ws) (field k v fs) batch s text =
      elim (Bool-cases (is_null ident)) [
        | inl absent ↦ rw (none_only ident absent, text) refl
        | inr present ↦ rw (present, text) refl
      ]

  failure-unhandled :
      (ident : Value) (name : String) (e : Exception)
      → e ≢ not_implemented_error
      → failure h ident name e
        ≡ json_error ident unhandled_exception "unhandled exception" (
            ("detail", str (h.text_of e)) ∷ ("exception.py", dict (to_fields (full_info h e))) ∷ [])
  unfolding failure
  failure-unhandled ident name not_implemented_error other = absurd (other refl)
  failure-unhandled ident name key_error other = refl
  failure-unhandled ident name type_error other = refl
  failure-unhandled ident name value_error other = refl
  failure-unhandled ident name index_error other = refl
  failure-unhandled ident name attribute_error other = refl
  failure-unhandled ident name assertion_error other = refl
  failure-unhandled ident name keyboard_interrupt other = refl
  failure-unhandled ident name runtime_error other = refl
  failure-unhandled ident name timeout other = refl
  failure-unhandled ident name unreachable other = refl
  failure-unhandled ident name vip_error other = refl
  failure-unhandled ident name remote_error other = refl
  failure-unhandled ident name method_not_found other = refl
  failure-unhandled ident name (zmq_error errno) other = refl
  failure-unhandled ident name auth_entry_invalid other = refl
  failure-unhandled ident name auth_file_index_error other = refl
  failure-unhandled ident name (auth_entry_exists indices) other = refl
  failure-unhandled ident name (error text) other = refl

  -- A request that `json_method` built calls the method of its name, with the arguments it was given;
  -- where there are both, they come as two arguments by name. If the method returns, the answer is
  -- what it returned, under the id of the request; if it raises an `Exception` other than
  -- `NotImplementedError`, the answer is an error under that id, which names the exception. A request
  -- without an id has no answer in both cases. The state is that in which the method leaves it. `str`
  -- is taken to leave a text as it is.
  pub dispatch_one-json_method :
      (ident : Value) (name : String) (args : Items) (kwargs : Fields) (batch : Value) (s s' : S)
      → h.to_text (str name) ≡ name
      → let request = json_method ident name (list args) (dict kwargs) in
        let (by_position, by_name) = received args kwargs in
        let outcome = h.method request ident name by_position by_name batch s in
        ((v : Value)
          → outcome ≡ (ok v, s')
          → dispatch_one h request batch s
            ≡ (ok (if is_null ident then none else some (json_result ident v)), s'))
        × ((e : Exception)
            → outcome ≡ (raised e, s')
            → is_exception e ≡ true
            → e ≢ not_implemented_error
            → dispatch_one h request batch s ≡ (
              ok (
                  if is_null ident
                  then none
                  else some (
                      json_error ident unhandled_exception "unhandled exception" (
                        ("detail", str (h.text_of e))
                        ∷ ("exception.py", dict (to_fields (full_info h e)))
                        ∷ []))),
              s',
            ))
  unfolding after_method
  dispatch_one-json_method ident name args kwargs batch s s' text = (
    λ v e. rw (called-json_method ident name args kwargs batch s text, e) refl,
    λ x e caught other.
        rw
          (
            called-json_method ident name args kwargs batch s text,
            e,
            caught,
            failure-unhandled ident name x other,
          )
          refl,
  )

  quiet :
      (name : String) (o : Result Value × S) (r : Option Value)
      → (after_method h null name o).0 ≡ ok r
      → r ≡ none
  unfolding after_method is_null
  quiet name (ok v, s) r e = cc
  quiet name (raised x, s) r e = elim (Bool-cases (is_exception x)) [
    | inl caught ↦ ground (arith, e, caught)
    | inr uncaught ↦ ground (arith, e, uncaught)
  ]

  no_answer :
      (name : String) (args : Items) (kwargs : Fields) (batch : Value) (s : S) (r : Option Value)
      → h.to_text (str name) ≡ name
      → (dispatch_one h (json_method null name (list args) (dict kwargs)) batch s).0 ≡ ok r
      → r ≡ none
  no_answer name args kwargs batch s r text e =
      let request = json_method null name (list args) (dict kwargs) in
      let (by_position, by_name) = received args kwargs in
      quiet name (h.method request null name by_position by_name batch s) r
        (cc (called-json_method null name args kwargs batch s text, e))

  -- A request that `json_method` built without an id is never answered: not with what the method
  -- returns, and not with an error, whatever the method raises.
  pub dispatch_one-notification :
      (name : String) (args : Items) (kwargs : Fields) (batch : Value) (s : S) (r : Value)
      → h.to_text (str name) ≡ name
      → ¬ (
          (dispatch_one h (json_method null name (list args) (dict kwargs)) batch s).0
          ≡ ok (some r))
  dispatch_one-notification name args kwargs batch s r text e =
      cc (no_answer name args kwargs batch s (some r) text e)
