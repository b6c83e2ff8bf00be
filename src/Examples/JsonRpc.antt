-- ===== src/Examples/JsonRpc.antt =====
-- JSON-RPC messages at concrete inputs.
use volttron_core.Prelude.{◌≡◌, refl, [], ◌∷◌}
use volttron_core.Py.Result.{ok}
use volttron_core.Py.Value.{Value, null, str, list, dict, end, to_items, is_null, truthy}
use volttron_core.JsonRpc.{json_method, parse}
use volttron_core.JsonRpc.Laws.{params_value, parse-json_method}

abbrev words : Value
words = list (to_items (str "hello" ∷ []))

parse-json_method_example :
    parse (json_method (str "7") "echo" words (dict end))
    ≡ ok (record {
      id = str "7";
      version = str "2.0";
      method = str "echo";
      params = words;
      authorization = null;
    })
unfolding is_null truthy params_value
parse-json_method_example = parse-json_method (str "7") words (dict end) "echo" refl
