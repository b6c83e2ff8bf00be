-- ===== src/Auth/Fields.antt =====
-- `AuthEntry` of services/auth/auth_service.py: how its fields are made of the values of a file,
-- and when a field matches a value of a connection.
use Prim.Native.Char.{Char, code}
use Prim.Native.String.{◌++◌ as append, count as length_text}
use volttron_core.Prelude.{
  ℕ, String, Bool, true, false, not, List, [], ◌∷◌, ◌&&◌, ◌==◌, if◌then◌else◌, string_eq, nat_eq,
  length,
}
use volttron_core.Py.Dict.{Dict, insert}
use volttron_core.Py.Result.{
  Result, ok, raised, type_error, attribute_error, error, auth_entry_invalid, ◌>>=◌,
}
use volttron_core.Py.Value.{
  Value, null, str, list, dict, nil, Fields, end, field, to_items, of_items, of_fields, truthy,
}

-- What is not the service's own: `str`, `re`, and `uuid.uuid4`, of which the draws are numbered by
-- the reading of the file and the entry in it.
pub record AuthEnv : Type 0 where
  pub to_text : Value → String
  pub compiles : String → Bool
  pub matches : String → String → Bool
  pub uuid : ℕ → ℕ → String

unfoldable pub is_slash : Char → Bool
is_slash c = code c == 47

unfoldable pub last_is_slash : Char → String → Bool
unfolding is_slash
last_is_slash c String.[] = is_slash c
last_is_slash c (String.◌∷◌ d s) = last_is_slash d s

-- isregex(obj) of a text
unfoldable pub is_regex_text : String → Bool
unfolding is_slash last_is_slash
is_regex_text String.[] = false
is_regex_text (String.◌∷◌ c String.[]) = false
is_regex_text (String.◌∷◌ c (String.◌∷◌ d s)) = is_slash c && last_is_slash d s

unfoldable pub last_item_is_slash : Value → List Value → Bool
last_item_is_slash (str s) [] = s == "/"
last_item_is_slash _ [] = false
last_item_is_slash v (w ∷ vs) = last_item_is_slash w vs

-- isregex(obj) of a list
unfoldable pub is_regex_list : List Value → Bool
unfolding last_item_is_slash
is_regex_list (str s ∷ w ∷ vs) = s == "/" && last_item_is_slash w vs
is_regex_list _ = false

-- isregex(obj) of a field of an entry, which is None, a text or a list
unfoldable pub isregex : Value → Bool
unfolding is_regex_text is_regex_list
isregex (str s) = is_regex_text s
isregex (list vs) = is_regex_list (of_items vs)
isregex _ = false

-- `obj[:-1]` of c followed by the text
unfoldable pub without_last : Char → String → String
without_last c String.[] = String.[]
without_last c (String.◌∷◌ d s) = String.◌∷◌ c (without_last d s)

-- `obj[1:-1]`
unfoldable pub between : String → String
unfolding without_last
between String.[] = String.[]
between (String.◌∷◌ c String.[]) = String.[]
between (String.◌∷◌ c (String.◌∷◌ d s)) = without_last d s

-- The expression that a `String` compiles.
unfoldable pub regex_of : String → String
unfolding between
regex_of s = append "^" (append (between s) "$")

-- String(value)
unfoldable pub new_string : AuthEnv → String → Result String
unfolding is_regex_text regex_of
new_string env s =
    if is_regex_text s && not (env.compiles (regex_of s)) then raised (error "re.error") else ok s

-- What `str` makes of a value.
unfoldable pub text_of : AuthEnv → Value → String
text_of env (str s) = s
text_of env v = env.to_text v

unfoldable pub characters : String → List Value
characters String.[] = []
characters (String.◌∷◌ c s) = str (String.◌∷◌ c String.[]) ∷ characters s

unfoldable pub field_names : Fields → List Value
field_names end = []
field_names (field k v fs) = str k ∷ field_names fs

-- `for x in v`
unfoldable pub elements : Value → Result (List Value)
unfolding characters field_names
elements (list vs) = ok (of_items vs)
elements (dict fields) = ok (field_names fields)
elements (str s) = ok (characters s)
elements _ = raised type_error

-- List(String(elem) for elem in value)
unfoldable pub new_list : AuthEnv → List Value → Result (List Value)
unfolding new_string text_of
new_list env [] = ok []
new_list env (v ∷ vs) = do
  s ← new_string env (text_of env v)
  rest ← new_list env vs
  ok (str s ∷ rest)

-- The elements of a value that is no text.
unfoldable pub build_list : AuthEnv → Value → Result Value
unfolding elements new_list
build_list env v = do vs ← elements v; built ← new_list env vs; ok (list (to_items built))

unfoldable pub build_text : AuthEnv → Value → Result Value
unfolding build_list new_string
build_text env (str s) = do t ← new_string env s; ok (str t)
build_text env v = build_list env v

unfoldable pub build_field : AuthEnv → Value → Result Value
unfolding build_text
build_field env v = if not (truthy v) then ok null else build_text env v

-- `... or []`
unfoldable pub or_list : Value → Value
or_list v = if truthy v then v else list nil

-- result.update(d)
unfoldable pub update_all : Dict Value → Dict Value → Dict Value
update_all result [] = result
update_all result ((k, v) ∷ d) = update_all (insert k v result) d

unfoldable pub get_capability : Value → Result (Dict Value)
get_capability (str s) = ok ((s, null) ∷ [])
get_capability (dict fields) = ok (of_fields fields)
get_capability _ = raised auth_entry_invalid

-- The loop over a list; `result.update` returns None, so the test after it never holds.
unfoldable pub gather_capabilities : List Value → Dict Value → Result (Dict Value)
unfolding get_capability update_all
gather_capabilities [] result = ok result
gather_capabilities (elem ∷ elems) result = do
  capability ← get_capability elem
  gather_capabilities elems (update_all result capability)

-- A None stands for no capabilities, as both callers take it.
unfoldable pub build_capabilities_field : Value → Result (Dict Value)
unfolding gather_capabilities get_capability
build_capabilities_field (list vs) = gather_capabilities (of_items vs) []
build_capabilities_field v = if not (truthy v) then ok [] else get_capability v

-- Credentials of a connection: a text (an encoded key), or the bytes of a password.
pub data Credential : Type 0 where
  text bytes : String → Credential

-- elem.match(value) of a `String`: bytes equal no text, and `re` refuses them.
unfoldable pub match_string : AuthEnv → String → Credential → Result Bool
unfolding is_regex_text regex_of
match_string env s (text value) =
    ok (if is_regex_text s then env.matches (regex_of s) value else value == s)
match_string env s (bytes value) = if is_regex_text s then raised type_error else ok false

-- `List.match`, whose elements are texts
unfoldable pub match_list : AuthEnv → List Value → Credential → Result Bool
unfolding match_string
match_list env [] value = ok false
match_list env (str s ∷ vs) value = do
  found ← match_string env s value
  if found then ok true else match_list env vs value
match_list env (_ ∷ vs) value = raised attribute_error

unfoldable pub match_field : AuthEnv → Value → Credential → Result Bool
unfolding match_string match_list
match_field env (str s) value = match_string env s value
match_field env (list vs) value = match_list env (of_items vs) value
match_field env _ value = raised attribute_error

-- len(self.credentials), 0 for what is neither a text nor a list
unfoldable pub length_field : Value → ℕ
length_field (str s) = length_text s
length_field (list vs) = length (of_items vs)
length_field _ = 0
