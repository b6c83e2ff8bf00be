-- ===== src/Auth/User.antt =====
-- `dump_user` and `load_user` of services/auth/auth_service.py.
use Prim.Native.Char.{Char, char, code}
use Prim.Native.String.{◌++◌ as append}
use volttron_core.Prelude.{
  String, Bool, true, false, not, List, [], ◌∷◌, ◌&&◌, ◌||◌, ◌==◌, if◌then◌else◌, nat_eq,
}

-- What `_dump_re` matches: a comma or a backslash.
unfoldable pub is_special : Char → Bool
is_special c = code c == 44 || code c == 92

-- _dump_re.sub(r"\\\1", arg)
unfoldable pub escape : String → String
unfolding is_special
escape String.[] = String.[]
escape (String.◌∷◌ c s) =
    let rest = escape s in
    if is_special c then String.◌∷◌ (char 92 tt) (String.◌∷◌ c rest) else String.◌∷◌ c rest

-- What follows the first argument of `",".join`.
unfoldable pub joined : List String → String
unfolding escape
joined [] = String.[]
joined (arg ∷ args) = String.◌∷◌ (char 44 tt) (append (escape arg) (joined args))

unfoldable pub dump_user : List String → String
unfolding escape joined
dump_user [] = String.[]
dump_user (arg ∷ args) = append (escape arg) (joined args)

-- The next character of the first part.
unfoldable pub put : Char → List String → List String
put c [] = String.◌∷◌ c String.[] ∷ []
put c (part ∷ parts) = String.◌∷◌ c part ∷ parts

-- `_load_re.sub(sub, string).split("\x00")`: a character after a backslash stands for itself, but
-- for a line break, which `.` does not match; a comma, and a "\x00" of the text, end a part.
unfoldable pub plain : Char → List String → List String
unfolding put
plain c rest = if code c == 44 || code c == 0 then String.[] ∷ rest else put c rest

unfoldable pub escaped : Char → List String → List String
unfolding put
escaped c rest = if code c == 0 then String.[] ∷ rest else put c rest

unfoldable pub load_user : String → List String
unfolding plain escaped
load_user String.[] = String.[] ∷ []
load_user (String.◌∷◌ c String.[]) = plain c (String.[] ∷ [])
load_user (String.◌∷◌ c (String.◌∷◌ d s)) = elim (code c == 92 && not (code d == 10)) [
  | true ↦ escaped d (load_user s)
  | false ↦ plain c (load_user (String.◌∷◌ d s))
]
