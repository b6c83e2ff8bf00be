-- ===== src/JsonRpc.antt =====
-- JSON-RPC messages: volttron/utils/jsonrpc.py, the functions that build and check them.
pub mod Laws
pub mod Dispatch
pub mod Answers
pub mod Requests
use volttron_core.Prelude.{String, Bool, true, false, List, [], ◌∷◌, ◌++◌, ◌&&◌, not, if◌then◌else◌}
use volttron_core.Py.Result.{Result, ok, raised, assertion_error, error, ◌>>=◌, ◌>>◌}
use volttron_core.Py.Value.{Value, null, str, dict, to_fields, truthy, is_text, is_null}
use volttron_core.Py.Access.{get_default}

-- `assert b`
unfoldable pub assert : Bool → Result (Unit {0})
assert true = ok tt
assert false = raised assertion_error

unfoldable pub json_validate_request : Value → Result (Unit {0})
unfolding assert
json_validate_request request = do
  ident ← get_default request "id" null
  assert (truthy ident)
  version ← get_default request "jsonrpc" null
  assert (is_text version "2.0")
  method ← get_default request "method" null
  assert (truthy method)

unfoldable pub json_validate_response : Value → Result (Unit {0})
unfolding assert
json_validate_response response = do
  ident ← get_default response "id" null
  assert (truthy ident)
  version ← get_default response "jsonrpc" null
  assert (is_text version "2.0")
  result ← get_default response "result" null
  let checked : Result (Unit {0}) = (do
    err ← get_default response "error" null
    assert (truthy err))
  (if is_null result then checked else ok tt)

-- The "params" of a request.
unfoldable pub params_of : Value → Value → List (String × Value)
params_of args kwargs =
    if truthy args && truthy kwargs
    then ("params", dict (to_fields (("*args", args) ∷ ("**kwargs", kwargs) ∷ []))) ∷ []
    else if truthy args
    then ("params", args) ∷ []
    else if truthy kwargs
    then ("params", kwargs) ∷ []
    else []

unfoldable pub json_method : Value → String → Value → Value → Value
json_method ident method args kwargs = dict (
    to_fields (
      ("jsonrpc", str "2.0")
      ∷ ("method", str method)
      ∷ (params_of args kwargs ++ (if is_null ident then [] else ("id", ident) ∷ []))))

unfoldable pub json_result : Value → Value → Value
json_result ident result =
    dict (to_fields (("jsonrpc", str "2.0") ∷ ("id", ident) ∷ ("result", result) ∷ []))

unfoldable pub error_data : List (String × Value) → List (String × Value)
error_data [] = []
error_data (d ∷ ds) = ("data", dict (to_fields (d ∷ ds))) ∷ []

-- The details are the keyword arguments after the message.
unfoldable pub json_error : Value → Value → String → List (String × Value) → Value
json_error ident code message details = dict (
    to_fields (
      ("jsonrpc", str "2.0")
      ∷ ("id", ident)
      ∷ ("error", dict (to_fields (("code", code) ∷ ("message", str message) ∷ error_data details)))
      ∷ []))

pub record JsonRpcData : Type 0 where
  pub id : Value
  pub version : Value
  pub method : Value
  pub params : Value
  pub authorization : Value

unfoldable pub checked : JsonRpcData → Result JsonRpcData
checked data' =
    if is_null data'.id
    then raised (error "Invalid id")
    else if not (is_text data'.version "2.0")
    then raised (error "Invalid jsonrpc version")
    else if is_null data'.method
    then raised (error "Method not specified.")
    else ok data'

-- `JsonRpcData.parse`, of a dictionary
unfoldable pub parse : Value → Result JsonRpcData
unfolding checked
parse request = do
  id ← get_default request "id" null
  version ← get_default request "jsonrpc" null
  method ← get_default request "method" null
  params ← get_default request "params" null
  authorization ← get_default request "authorization" null
  checked (record {
    id = id;
    version = version;
    method = method;
    params = params;
    authorization = authorization;
  })
