-- ===== src/Auth/Zap.antt =====
-- `zap_loop` of `AuthService` (services/auth/auth_service.py): one round of the loop that
-- answers the authentication requests of the message bus.
use volttron_core.Prelude.{
  ℕ, suc, ◌+◌, ◌*◌, ◌-◌, String, true, Option, none, some, List, [], ◌∷◌, ◌++◌, ◌==◌, ltb, leb,
  if◌then◌else◌, string_eq,
}
use volttron_core.Py.Dict.{Dict, lookup, insert, remove}
use volttron_core.Py.Exec.{Exec, pure, raise, lift, gets, modify, ◌>>=◌, ◌>>◌}
use volttron_core.Py.Result.{ok, attribute_error}
use volttron_core.Py.Value.{Value, str, truthy}
use volttron_core.Auth.Fields.{Credential}
use volttron_core.Auth.Entry.{first_credential}
use volttron_core.Auth.Service.{AuthService, ServiceEnv, Failure}
use volttron_core.Auth.Failures.{update_auth_entry, update_auth_pending}
use volttron_core.Auth.Authenticate.{Connection, authenticate}
use volttron_core.Auth.Requests.{
  Request, read_request, credentials_of, credential_value, connection,
}

-- A response that waits until a time: (expire, address, response).
pub record Waiting : Type 0 where
  pub expire : ℕ
  pub address : String
  pub response : List String

-- The variables of the loop, and the responses sent. Times are numbers of clock ticks.
pub record Zap : Type 0 where
  pub service : AuthService
  pub blocked : Dict (ℕ × ℕ)
  pub wait_list : List Waiting
  pub timeout : Option ℕ
  pub responses : List (List String)
  pub draws : ℕ

-- The ticks of a second, `random.random()` in ticks, and `uuid.uuid4()`, by the number of draws.
pub record Clock : Type 0 where
  pub second : ℕ
  pub random : ℕ → ℕ
  pub uuid : ℕ → String

abbrev pub Loop {ℓ} : Type ℓ → Type ℓ
Loop A = Exec Zap A

unfoldable pub with_service {ℓ} : {A : Type ℓ} → Exec AuthService A → Loop A
with_service m s = let (result, service) = m s.service in (result, record s { service = service })

unfoldable pub respond : List String → Loop (Unit {0})
respond response = modify λ s. record s { responses = s.responses ++ response ∷ [] }

-- The response to a user that was authenticated.
unfoldable pub accept_user : Request → Value → Loop (Unit {0})
unfolding respond
accept_user r (str user) = respond (r.response ++ "200" ∷ "SUCCESS" ∷ user ∷ "" ∷ [])
accept_user r _ = raise attribute_error

unfoldable pub draw_uuid : Clock → Loop String
draw_uuid clock s = (ok (clock.uuid s.draws), record s { draws = suc s.draws })

unfoldable pub draw_random : Clock → Loop ℕ
draw_random clock s = (ok (clock.random s.draws), record s { draws = suc s.draws })

unfoldable pub failed_connection : Connection → Credential → String → Failure
unfolding credential_value
failed_connection c credential userid = record {
  domain = str c.domain;
  address = str c.address;
  mechanism = str c.mechanism;
  credentials = credential_value credential;
  user_id = str userid;
  retries = 0;
}

-- delay *= 2, at most 100 seconds
unfoldable pub doubled : Clock → ℕ → ℕ
doubled clock delay =
    let delay = delay * 2 in if ltb (100 * clock.second) delay then 100 * clock.second else delay

unfoldable pub next_delay : Clock → ℕ → Option (ℕ × ℕ) → Loop ℕ
unfolding draw_random doubled
next_delay clock now none = draw_random clock
next_delay clock now (some (expire, delay)) =
    if leb expire now then draw_random clock else pure (doubled clock delay)

-- `bisect.bisect` finds the place of the response in `wait_list` and does not put it there.
unfoldable pub block : Clock → ℕ → String → Loop (Unit {0})
unfolding next_delay
block clock now address = do
  s ← gets (λ s. s)
  delay ← next_delay clock now (lookup address s.blocked)
  modify (λ s. record s { blocked = insert address (now + delay, delay) s.blocked })

-- In setup mode every connection is let in and made an entry, else it waits to be approved.
unfoldable pub register : ServiceEnv → Request → Failure → Loop (Unit {0})
unfolding with_service respond update_auth_entry update_auth_pending
register env r new =
    if env.setup_mode
    then (with_service (update_auth_entry env.fields env.others new true)
        >> respond (r.response ++ "200" ∷ "SUCCESS" ∷ "" ∷ "" ∷ []))
    else with_service (update_auth_pending new)

unfoldable pub refuse : ServiceEnv → Clock → ℕ → Request → Connection → Loop (Unit {0})
unfolding draw_uuid failed_connection register block
refuse env clock now r c = do
  userid ← draw_uuid clock
  credential ← lift (first_credential c.credentials)
  register env r (failed_connection c credential userid)
  block clock now c.address

-- `if user`
unfoldable pub decide :
    ServiceEnv → Clock → ℕ → Request → Connection → Option Value → Loop (Unit {0})
unfolding accept_user refuse
decide env clock now r c none = refuse env clock now r c
decide env clock now r c (some user) =
    if truthy user then accept_user r user else refuse env clock now r c

-- The responses that are due at the start of the list are sent.
unfoldable pub release : ℕ → List Waiting → Zap → Zap
release now [] s = record s { wait_list = [] }
release now (w ∷ ws) s =
    let blocked : Dict (ℕ × ℕ) = elim (lookup w.address s.blocked) [
      | none ↦ s.blocked
      | some (expire, delay) ↦ if leb expire now then remove w.address s.blocked else s.blocked
    ] in
    let after = release now ws (record s {
      blocked = blocked;
      responses = s.responses ++ (w.response ++ "400" ∷ "FAIL" ∷ "" ∷ "" ∷ []) ∷ [];
    }) in
    if ltb now w.expire then record s { wait_list = w ∷ ws } else after

unfoldable pub next_timeout : ℕ → List Waiting → Option ℕ
next_timeout now [] = none
next_timeout now (w ∷ ws) = some (w.expire - now)

unfoldable pub settle : ℕ → Loop (Unit {0})
unfolding release next_timeout
settle now = do
  modify (λ s. release now s.wait_list s)
  modify (λ s. record s { timeout = next_timeout now s.wait_list })

unfoldable pub handle : ServiceEnv → Clock → ℕ → Request → List Credential → Loop (Unit {0})
unfolding connection decide settle
handle env clock now r credentials = do
  s ← gets (λ s. s)
  user ← lift (authenticate env s.service (connection r credentials))
  decide env clock now r (connection r credentials) user
  settle now

-- A request of another kind, or of another version, is passed over with `continue`.
unfoldable pub handle_some :
    ServiceEnv → Clock → ℕ → Request → Option (List Credential) → Loop (Unit {0})
unfolding handle
handle_some env clock now r none = pure tt
handle_some env clock now r (some credentials) = handle env clock now r credentials

unfoldable pub process : ServiceEnv → Clock → ℕ → Request → Loop (Unit {0})
unfolding credentials_of handle_some
process env clock now r =
    if r.version == "1.0"
    then (do credentials ← lift (credentials_of env r); handle_some env clock now r credentials)
    else pure tt

-- What `poll` brings, and when.
pub record Event : Type 0 where
  pub now : ℕ
  pub zap : Option (List String)

unfoldable pub receive : ServiceEnv → Clock → ℕ → Option (List String) → Loop (Unit {0})
unfolding read_request process settle
receive env clock now none = settle now
receive env clock now (some zap) = do r ← lift (read_request zap); process env clock now r

-- One round of `while True`.
unfoldable pub round : ServiceEnv → Clock → Event → Loop (Unit {0})
unfolding receive
round env clock event = receive env clock event.now event.zap

unfoldable pub rounds : ServiceEnv → Clock → List Event → Loop (Unit {0})
unfolding round
rounds env clock [] = pure tt
rounds env clock (event ∷ events) = do round env clock event; rounds env clock events
