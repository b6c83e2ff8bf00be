-- ===== src/JsonRpc/Dispatch.antt =====
-- `Dispatcher`: what is done with a message, and the response to it.
use volttron_core.Prelude.{String, Option, none, some, List, [], ◌∷◌, if◌then◌else◌}
use Prim.Native.String.{◌++◌ as str_append}
use volttron_core.Py.Dict.{Dict, has, insert}
use volttron_core.Py.Exec.{Exec, pure, raise, lift, ◌>>=◌, ◌>>◌}
use volttron_core.Py.Result.{
  is_exception, Result, ok, raised, Exception, key_error, type_error, value_error,
  not_implemented_error,
}
use volttron_core.Py.Value.{
  Value, null, bool, int, str, list, dict, negsuc, of_items, to_items, of_fields, to_fields, end,
  nil, is_text, is_null, truthy,
}
use volttron_core.Py.Access.{get_item, get_default}
use volttron_core.JsonRpc.{json_error, json_result, json_method}

-- The error codes.
abbrev pub invalid_request : Value
invalid_request = int (negsuc 32599)

abbrev pub method_not_found_code : Value
method_not_found_code = int (negsuc 32600)

abbrev pub invalid_params : Value
invalid_params = int (negsuc 32601)

abbrev pub unhandled_exception : Value
unhandled_exception = int (negsuc 31999)

-- What a subclass of `Dispatcher` implements, on its own state, and how Python prints.
pub record Handlers (S : Type 0) : Type 0 where
  pub method : Value → Value → String → Value → Value → Value → Exec S Value
  pub result : Value → Value → Value → Exec S (Unit {0})
  pub error : Value → Value → Value → Value → Value → Exec S (Unit {0})
  pub exception : Value → Value → String → Exec S (Unit {0})
  pub batch : Value → Exec S Value
  pub serialize : Value → Result String
  pub repr : Value → String
  pub to_text : Value → String
  pub text_of : Exception → String
  pub exc_info : Exception → Dict Value
  pub exc_type : Exception → Value
  pub exc_args : Exception → Option Value

-- type(v).__name__
unfoldable pub type_name : Value → String
type_name null = "NoneType"
type_name (bool b) = "bool"
type_name (int n) = "int"
type_name (str s) = "str"
type_name (list items) = "list"
type_name (dict fields) = "dict"

unfoldable pub error_detail : Value → Value → String → String → Value
error_detail ident code message detail = json_error ident code message (("detail", str detail) ∷ [])

-- The arguments by position and by name, from "params".
unfoldable pub read_params : Value → Option (Value × Value)
read_params (list items) = some (list items, dict end)
read_params (dict fields) = some (list nil, dict fields)
read_params null = some (list nil, dict end)
read_params _ = none

unfoldable pub keep_response : Option Value → List Value → List Value
keep_response none responses = responses
keep_response (some response) responses =
    if truthy response then response ∷ responses else responses

module _ {S : Type 0} (h : Handlers S) where
  abbrev pub Reply : Type 0
  Reply = Exec S (Option Value)

  -- `exc_info`, with the type and the arguments of the exception
  unfoldable pub full_info : Exception → Dict Value
  full_info e =
      let info = h.exc_info e in
      let typed = if has "exc_type" info then info else insert "exc_type" (h.exc_type e) info in
      if has "exc_args" typed
      then typed
      else elim (h.exc_args e) [ none ↦ typed | some args ↦ insert "exc_args" args typed ]

  unfoldable pub failure : Value → String → Exception → Value
  failure ident name not_implemented_error =
      error_detail ident method_not_found_code "unimplemented method"
        (str_append "method " (str_append (h.repr (str name)) " is not implemented"))
  failure ident name e =
      json_error ident unhandled_exception "unhandled exception"
        (("detail", str (h.text_of e)) ∷ ("exception.py", dict (to_fields (full_info e))) ∷ [])

  -- What a call of the method came to.
  unfoldable pub after_method : Value → String → Result Value × S → Result (Option Value) × S
  after_method ident name (ok v, s) =
      (ok (if is_null ident then none else some (json_result ident v)), s)
  after_method ident name (raised e, s) =
      if is_exception e
      then (ok (if is_null ident then none else some (failure ident name e)), s)
      else (raised e, s)

  -- "expected a ...; got a ... instead"
  unfoldable pub wrong_type : String → Value → String
  wrong_type expected v =
      str_append expected
        (str_append "; got a " (str_append (h.repr (str (type_name v))) " instead"))

  unfoldable pub call_method :
      Value → Value → String → Value → Option (Value × Value) → Value → Reply
  call_method msg ident name params none batch = pure (
      some (
        error_detail null invalid_params "invalid object type"
          (wrong_type "expected a list or dictionary (object)" params)))
  call_method msg ident name params (some (args, kwargs)) batch =
      λ s. after_method ident name (h.method msg ident name args kwargs batch s)

  -- A response that is not in order is reported; nothing is sent back.
  unfoldable pub report : Value → Value → String → Reply
  report msg ident text = do h.exception msg ident text; pure none

  -- The "message" member of an error.
  unfoldable pub on_error_message : Value → Value → Value → Value → Result Value → Reply
  on_error_message msg ident err code (ok message) = do
    details ← lift (get_default err "data" null)
    h.error msg ident code message details
    pure none
  on_error_message msg ident err code (raised key_error) =
      report msg ident "'error' member is missing 'message' member"
  on_error_message msg ident err code (raised e) = raise e

  -- The "code" member of an error.
  unfoldable pub on_error : Value → Value → Value → Result Value → Reply
  on_error msg ident err (ok code) = on_error_message msg ident err code (get_item err "message")
  on_error msg ident err (raised type_error) =
      report msg ident
        (str_append "expected dict 'error' member; got " (str_append (type_name err) " instead"))
  on_error msg ident err (raised key_error) =
      report msg ident "'error' member is missing 'code' member"
  on_error msg ident err (raised e) = raise e

  unfoldable pub dispatch_error : Value → Value → Reply
  dispatch_error msg ident = do
    err ← lift (get_item msg "error")
    on_error msg ident err (get_item err "code")

  unfoldable pub dispatch_result : Value → Value → Reply
  dispatch_result msg ident = do v ← lift (get_item msg "result"); h.result msg ident v; pure none

  unfoldable pub dispatch_method : Value → Value → Value → Reply
  dispatch_method msg ident batch = do
    method ← lift (get_item msg "method")
    params ← lift (get_default msg "params" null)
    call_method msg ident (h.to_text method) params (read_params params) batch

  -- A message of version 2.0: an error, a result, or a request.
  unfoldable pub dispatch_kind : Dict Value → Value → Value → Reply
  dispatch_kind members ident batch =
      let msg = dict (to_fields members) in
      if has "error" members
      then dispatch_error msg ident
      else if has "result" members
      then dispatch_result msg ident
      else if has "method" members
      then dispatch_method msg ident batch
      else pure none

  unfoldable pub unsupported : Value → Value → Value
  unsupported ident version =
      error_detail ident invalid_request "unsupported version"
        (str_append "version 2.0 supported, but recieved version " (h.repr version))

  unfoldable pub dispatch_version : Dict Value → Value → Result Value → Value → Reply
  dispatch_version members ident (ok version) batch =
      if is_text version "2.0"
      then dispatch_kind members ident batch
      else pure (some (unsupported ident version))
  dispatch_version members ident (raised key_error) batch = pure (
      some (
        error_detail ident invalid_request "missing required member"
          "missing required 'jsonrpc' member"))
  dispatch_version members ident (raised e) batch = raise e

  -- `_dispatch_one`
  unfoldable pub dispatch_one : Value → Value → Reply
  dispatch_one (dict fields) batch = do
    ident ← lift (get_default (dict fields) "id" null)
    dispatch_version (of_fields fields) ident (get_item (dict fields) "jsonrpc") batch
  dispatch_one msg batch = pure (
      some (
        error_detail null invalid_request "invalid object type"
          (wrong_type "expected a dictionary (object)" msg)))

  -- [response for response in responses if response]
  unfoldable pub dispatch_each : List Value → Value → Exec S (List Value)
  dispatch_each [] batch = pure []
  dispatch_each (msg ∷ msgs) batch = do
    response ← dispatch_one msg batch
    responses ← dispatch_each msgs batch
    pure (keep_response response responses)

  unfoldable pub dispatch_message : Value → Reply
  dispatch_message (list items) = do
    batch ← h.batch (list items)
    responses ← dispatch_each (of_items items) batch
    pure (some (list (to_items responses)))
  dispatch_message (dict fields) = dispatch_one (dict fields) null
  dispatch_message msg = pure (
      some (
        error_detail null invalid_request "invalid object type"
          (wrong_type "expected a list or dictionary (object)" msg)))

  unfoldable pub on_serialized : Value → Result String → Exec S (Option String)
  on_serialized response (ok text) = pure (some text)
  on_serialized response (raised value_error) = do
    h.exception response null (h.text_of value_error)
    pure none
  on_serialized response (raised e) = raise e

  unfoldable pub serialized : Option Value → Exec S (Option String)
  serialized none = pure none
  serialized (some response) =
      if truthy response then on_serialized response (h.serialize response) else pure none

  -- `dispatch`
  unfoldable pub dispatch : Value → Exec S (Option String)
  dispatch message = do response ← dispatch_message message; serialized response

  unfoldable pub requests_of : List (Value × String × Value × Value) → List Value
  requests_of [] = []
  requests_of ((ident, method, args, kwargs) ∷ requests) =
      json_method ident method args kwargs ∷ requests_of requests

  unfoldable pub batch_call : List (Value × String × Value × Value) → Result String
  batch_call requests = h.serialize (list (to_items (requests_of requests)))

  -- `args or ()`, `kwargs or {}`
  unfoldable pub or_default : Value → Value → Value
  or_default v default = if truthy v then v else default

  unfoldable pub call : Value → String → Value → Value → Result String
  call ident method args kwargs =
      h.serialize
        (json_method ident method (or_default args (list nil)) (or_default kwargs (dict end)))

  unfoldable pub notify : String → Value → Value → Result String
  notify method args kwargs =
      h.serialize
        (json_method null method (or_default args (list nil)) (or_default kwargs (dict end)))
