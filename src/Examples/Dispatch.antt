-- ===== src/Examples/Dispatch.antt =====
-- The dispatcher of JSON-RPC messages at concrete inputs.
use volttron_core.Prelude.{true, ◌≢◌, String, ◌≡◌, refl, none, some, List, [], ◌∷◌}
use volttron_core.Py.Dict.{lookup, has}
use volttron_core.Py.Exec.{◌>>=◌, lift}
use volttron_core.Py.Result.{Result, Exception, ok, raised, is_exception, not_implemented_error}
use volttron_core.Py.Value.{Value, null, str, list, dict, end, to_fields, to_items, is_null, truthy}
use volttron_core.Py.Access.{get_item, get_default}
use volttron_core.JsonRpc.{json_method, json_result, json_error, params_of}
use volttron_core.JsonRpc.Dispatch.{
  Handlers, dispatch_one, dispatch_version, dispatch_kind, dispatch_method, call_method,
  read_params, after_method, full_info, unhandled_exception,
}
use volttron_core.JsonRpc.Answers.{Answers, dispatch_one-Answers}
use volttron_core.JsonRpc.Requests.{dispatch_one-json_method, dispatch_one-notification}

text_of_value : Value → String
text_of_value (str s) = s
text_of_value v = "?"

-- Handlers that log the methods called; "echo" returns its arguments, and no other method is there.
abbrev handlers : Handlers (List String)
handlers = record {
  method = λ msg ident name args kwargs batch s. (ok args, name ∷ s);
  result = λ msg ident result s. (ok tt, s);
  error = λ msg ident code message details s. (ok tt, s);
  exception = λ msg ident message s. (ok tt, s);
  batch = λ request s. (ok null, s);
  serialize = λ response. ok "";
  repr = λ v. "'...'";
  to_text = text_of_value;
  text_of = λ e. "";
  exc_info = λ e. [];
  exc_type = λ e. str "Exception";
  exc_args = λ e. none;
}

abbrev hello : Value
hello = json_method (str "7") "echo" (list (to_items (str "hello" ∷ []))) (dict end)

-- What "echo" comes to.
abbrev echoed : Result Value × List String
echoed = (ok (list (to_items (str "hello" ∷ []))), "echo" ∷ [])

dispatch_one-json_method_example :
    ((v : Value)
      → echoed ≡ (ok v, "echo" ∷ [])
      → dispatch_one handlers hello null [] ≡ (ok (some (json_result (str "7") v)), "echo" ∷ []))
    × ((e : Exception)
        → echoed ≡ (raised e, "echo" ∷ [])
        → is_exception e ≡ true
        → e ≢ not_implemented_error
        → dispatch_one handlers hello null [] ≡ (
          ok (
              some (
                json_error (str "7") unhandled_exception "unhandled exception" (
                  ("detail", str "")
                  ∷ ("exception.py", dict (to_fields (full_info handlers e)))
                  ∷ []))),
          "echo" ∷ [],
        ))
unfolding text_of_value truthy is_null
dispatch_one-json_method_example =
    dispatch_one-json_method handlers (str "7") "echo" (to_items (str "hello" ∷ [])) end null []
      ("echo" ∷ []) refl

abbrev greeting : Value
greeting = json_method null "echo" (list (to_items (str "hello" ∷ []))) (dict end)

dispatch_one-notification_example :
    ¬ ((dispatch_one handlers greeting null []).0 ≡ ok (some (json_result null null)))
unfolding text_of_value
dispatch_one-notification_example =
    dispatch_one-notification handlers "echo" (to_items (str "hello" ∷ [])) end null []
      (json_result null null) refl

abbrev answer : Value
answer = json_result (str "7") (list (to_items (str "hello" ∷ [])))

dispatch_one-Answers_example : Answers (str "7") answer
unfolding dispatch_one dispatch_version dispatch_kind dispatch_method call_method read_params
    after_method json_method json_result params_of get_item get_default lookup has is_null truthy
    ◌>>=◌ lift text_of_value
dispatch_one-Answers_example =
    dispatch_one-Answers handlers hello (str "7") null [] answer refl refl
