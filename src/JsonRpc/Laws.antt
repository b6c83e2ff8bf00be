-- ===== src/JsonRpc/Laws.antt =====
-- What is built is read back.
use volttron_core.Prelude.{
  String, ◌≡◌, refl, false, [], ◌∷◌, ◌&&◌, if◌then◌else◌, Bool-cases, inl, inr,
}
use volttron_core.Py.Dict.{lookup}
use volttron_core.Py.Result.{ok}
use volttron_core.Py.Value.{Value, null, str, dict, to_fields, truthy, is_null}
use volttron_core.Py.Access.{get_default}
use volttron_core.JsonRpc.{json_method, params_of, JsonRpcData, parse, checked}

-- The value of "params" in a request, `None` where there is none.
unfoldable pub params_value : Value → Value → Value
params_value args kwargs =
    if truthy args && truthy kwargs
    then dict (to_fields (("*args", args) ∷ ("**kwargs", kwargs) ∷ []))
    else if truthy args
    then args
    else if truthy kwargs
    then kwargs
    else null

checked_request :
    (ident params : Value) (method : String)
    → is_null ident ≡ false
    → let request : JsonRpcData = record {
      id = ident;
      version = str "2.0";
      method = str method;
      params = params;
      authorization = null;
    } in
      checked request ≡ ok request
unfolding checked is_null
checked_request ident params method h = rw h refl

-- A request with an id is parsed to its parts: the id, the method, and the parameters as given,
-- by position, by name or both.
pub parse-json_method :
    (ident args kwargs : Value) (method : String)
    → is_null ident ≡ false
    → parse (json_method ident method args kwargs)
      ≡ ok (record {
        id = ident;
        version = str "2.0";
        method = str method;
        params = params_value args kwargs;
        authorization = null;
      })
unfolding parse json_method params_of params_value get_default lookup
parse-json_method ident args kwargs method h = elim (Bool-cases (truthy args)) [
  | inl a ↦ elim (Bool-cases (truthy kwargs)) [
    | inl k ↦ rw (h, a, k) (checked_request ident _ method h)
    | inr k ↦ rw (h, a, k) (checked_request ident _ method h)
  ]
  | inr a ↦ elim (Bool-cases (truthy kwargs)) [
    | inl k ↦ rw (h, a, k) (checked_request ident _ method h)
    | inr k ↦ rw (h, a, k) (checked_request ident _ method h)
  ]
]
