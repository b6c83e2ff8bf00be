-- ===== src/Auth/Requests.antt =====
-- The requests of `zap_loop` (services/auth/auth_service.py): the frames and what they stand for.
use Prim.Native.Char.{code}
use volttron_core.Prelude.{
  String, Option, none, some, List, [], ◌∷◌, ◌==◌, if◌then◌else◌, string_eq,
}
use volttron_core.Py.Result.{Result, ok, raised, value_error, index_error}
use volttron_core.Py.Value.{Value, int, str, list, pos, Items, nil, cons}
use volttron_core.Auth.Fields.{Credential, text, bytes}
use volttron_core.Auth.Service.{ServiceEnv}
use volttron_core.Auth.Authenticate.{Connection}

-- The frames of a request: `zap[:4]`, the version, the fields and the credentials.
pub record Request : Type 0 where
  pub response : List String
  pub version : String
  pub domain : String
  pub address : String
  pub kind : String
  pub credentials : List String

-- `zap[2]`, and `domain, address, userid, kind = zap[4:8]` for the version of the loop
unfoldable pub read_request : List String → Result Request
read_request (a ∷ b ∷ version ∷ r ∷ domain ∷ address ∷ userid ∷ kind ∷ credentials) = ok (record {
  response = a ∷ b ∷ version ∷ r ∷ [];
  version = version;
  domain = domain;
  address = address;
  kind = kind;
  credentials = credentials;
})
read_request (a ∷ b ∷ version ∷ rest) =
    if version == "1.0"
    then raised value_error
    else ok (record {
      response = [];
      version = version;
      domain = "";
      address = "";
      kind = "";
      credentials = [];
    })
read_request _ = raised index_error

unfoldable pub as_bytes : List String → List Credential
as_bytes [] = []
as_bytes (c ∷ cs) = bytes c ∷ as_bytes cs

-- credentials[0] = encode_key(credentials[0])
unfoldable pub encoded : ServiceEnv → List String → Result (List Credential)
unfolding as_bytes
encoded env [] = raised index_error
encoded env (key ∷ rest) = ok (text (env.encode_key key) ∷ as_bytes rest)

-- The credentials by their kind; none for a kind that the loop passes over.
unfoldable pub credentials_of : ServiceEnv → Request → Result (Option (List Credential))
unfolding encoded as_bytes
credentials_of env r =
    if r.kind == "CURVE"
    then elim (encoded env r.credentials) [ ok cs ↦ ok (some cs) | raised why ↦ raised why ]
    else if r.kind == "NULL"
    then ok (some (as_bytes r.credentials))
    else if r.kind == "PLAIN"
    then ok (some (as_bytes r.credentials))
    else ok none

unfoldable pub byte_items : String → Items
byte_items String.[] = nil
byte_items (String.◌∷◌ c s) = cons (int (pos (code c))) (byte_items s)

-- A credential as the value of a field: bytes are the list of their numbers.
unfoldable pub credential_value : Credential → Value
unfolding byte_items
credential_value (text c) = str c
credential_value (bytes c) = list (byte_items c)

unfoldable pub connection : Request → List Credential → Connection
connection r credentials = record {
  domain = r.domain;
  address = r.address;
  mechanism = r.kind;
  credentials = credentials;
}
