-- ===== src/Auth/Rounds.antt =====
-- `zap_loop` of `AuthService` (services/auth/auth_service.py) over any number of rounds.
use volttron_core.Prelude.{
  ℕ, String, ◌≡◌, refl, true, false, Option, none, some, List, [], ◌∷◌, ◌++◌, All, All-append_one,
  ◌==◌, string_eq,
}
use volttron_core.Py.Exec.{Exec, modify, ◌>>=◌}
use volttron_core.Py.Keeps.{
  Keeps, Keeps-pure, Keeps-raise, Keeps-lift, Keeps-gets, Keeps-if, Keeps-bind, Keeps-then,
}
use volttron_core.Py.Result.{ok}
use volttron_core.Py.Value.{Value, str, truthy}
use volttron_core.Auth.Fields.{Credential, text}
use volttron_core.Auth.Entry.{AuthEntry}
use volttron_core.Auth.Service.{AuthService, ServiceEnv, Failure}
use volttron_core.Auth.Failures.{update_auth_entry, update_auth_pending}
use volttron_core.Auth.Authenticate.{Connection, is_match, first_entry, user_of, authenticate}
use volttron_core.Auth.Requests.{
  Request, read_request, credentials_of, encoded, as_bytes, connection,
}
use volttron_core.Auth.Zap.{
  Zap, Clock, Event, with_service, respond, accept_user, draw_uuid, draw_random, next_delay, block,
  register, refuse, decide, release, next_timeout, settle, failed_connection, handle, handle_some,
  process, receive, round, rounds,
}

-- A response with the status 200.
abbrev pub IsSuccess : List String → Type 0
IsSuccess response =
    (envelope : List String) × (user : String) × (response
      ≡ envelope ++ "200" ∷ "SUCCESS" ∷ user ∷ "" ∷ [])

-- No response waits, and none was a failure.
pub record IsOpen (z : Zap) : Type 0 where
  pub waiting : z.wait_list ≡ []
  pub answered : All IsSuccess z.responses

with_service-IsOpen {ℓ} : {A : Type ℓ} (m : Exec AuthService A) → Keeps IsOpen (with_service m)
unfolding with_service
with_service-IsOpen m = record { at = λ z h. record { waiting = h.waiting; answered = h.answered } }

respond-IsOpen :
    (envelope : List String) (user : String)
    → Keeps IsOpen (respond (envelope ++ "200" ∷ "SUCCESS" ∷ user ∷ "" ∷ []))
unfolding respond modify
respond-IsOpen envelope user = record {
  at = λ z h. record {
    waiting = h.waiting;
    answered = All-append_one IsSuccess z.responses _ h.answered (envelope, user, refl);
  };
}

draw_uuid-IsOpen : (clock : Clock) → Keeps IsOpen (draw_uuid clock)
unfolding draw_uuid
draw_uuid-IsOpen clock = record {
  at = λ z h. record { waiting = h.waiting; answered = h.answered };
}

draw_random-IsOpen : (clock : Clock) → Keeps IsOpen (draw_random clock)
unfolding draw_random
draw_random-IsOpen clock = record {
  at = λ z h. record { waiting = h.waiting; answered = h.answered };
}

modify-IsOpen :
    (f : Zap → Zap)
    → ((z : Zap) → (f z).wait_list ≡ z.wait_list)
    → ((z : Zap) → (f z).responses ≡ z.responses)
    → Keeps IsOpen (modify f)
unfolding modify
modify-IsOpen f w r = record {
  at = λ z h. record { waiting = rw (w z) h.waiting; answered = rw (r z) h.answered };
}

module _ (env : ServiceEnv) (clock : Clock) (now : ℕ) where
  next_delay-IsOpen : (known : Option (ℕ × ℕ)) → Keeps IsOpen (next_delay clock now known)
  unfolding next_delay
  next_delay-IsOpen none = draw_random-IsOpen clock
  next_delay-IsOpen (some (expire, delay)) =
      Keeps-if _ _ _ (draw_random-IsOpen clock) (Keeps-pure _)

  block-IsOpen : (address : String) → Keeps IsOpen (block clock now address)
  unfolding block
  block-IsOpen address =
      Keeps-bind _ _ (Keeps-gets _)
        λ s. Keeps-bind _ _ (next_delay-IsOpen _) λ delay. modify-IsOpen _ (λ z. refl) (λ z. refl)

  register-IsOpen : (r : Request) (new : Failure) → Keeps IsOpen (register env r new)
  unfolding register
  register-IsOpen r new =
      Keeps-if env.setup_mode _ _
        (Keeps-then _ _ (with_service-IsOpen (update_auth_entry env.fields env.others new true))
          (respond-IsOpen r.response ""))
        (with_service-IsOpen (update_auth_pending new))

  refuse-IsOpen : (r : Request) (c : Connection) → Keeps IsOpen (refuse env clock now r c)
  unfolding refuse
  refuse-IsOpen r c = Keeps-bind _ _ (draw_uuid-IsOpen clock) λ userid.
      Keeps-bind _ _ (Keeps-lift _) λ credential.
        Keeps-then _ _ (register-IsOpen r (failed_connection c credential userid))
          (block-IsOpen c.address)

  accept_user-IsOpen : (r : Request) (user : Value) → Keeps IsOpen (accept_user r user)
  unfolding accept_user
  accept_user-IsOpen r (str user) = respond-IsOpen r.response user
  accept_user-IsOpen r _ = Keeps-raise _

  decide-IsOpen :
      (r : Request) (c : Connection) (user : Option Value)
      → Keeps IsOpen (decide env clock now r c user)
  unfolding decide
  decide-IsOpen r c none = refuse-IsOpen r c
  decide-IsOpen r c (some user) =
      Keeps-if (truthy user) _ _ (accept_user-IsOpen r user) (refuse-IsOpen r c)

  settle-IsOpen : Keeps IsOpen (settle now)
  unfolding settle release ◌>>=◌
  settle-IsOpen = record {
    at = λ z h. rw h.waiting (record { waiting = refl; answered = h.answered });
  }

  handle-IsOpen : (r : Request) (cs : List Credential) → Keeps IsOpen (handle env clock now r cs)
  unfolding handle
  handle-IsOpen r cs = Keeps-bind _ _ (Keeps-gets _) λ s.
      Keeps-bind _ _ (Keeps-lift _)
        λ user. Keeps-then _ _ (decide-IsOpen r (connection r cs) user) settle-IsOpen

  handle_some-IsOpen :
      (r : Request) (found : Option (List Credential))
      → Keeps IsOpen (handle_some env clock now r found)
  unfolding handle_some
  handle_some-IsOpen r none = Keeps-pure tt
  handle_some-IsOpen r (some cs) = handle-IsOpen r cs

  process-IsOpen : (r : Request) → Keeps IsOpen (process env clock now r)
  unfolding process
  process-IsOpen r =
      Keeps-if (r.version == "1.0") _ _ (Keeps-bind _ _ (Keeps-lift _) (handle_some-IsOpen r))
        (Keeps-pure tt)

  receive-IsOpen : (zap : Option (List String)) → Keeps IsOpen (receive env clock now zap)
  unfolding receive
  receive-IsOpen none = settle-IsOpen
  receive-IsOpen (some zap) = Keeps-bind _ _ (Keeps-lift _) process-IsOpen

module _ (env : ServiceEnv) (clock : Clock) where
  rounds-Keeps : (events : List Event) → Keeps IsOpen (rounds env clock events)
  unfolding rounds round
  rounds-Keeps [] = Keeps-pure tt
  rounds-Keeps (event ∷ events) =
      Keeps-then _ _ (receive-IsOpen env clock event.now event.zap) (rounds-Keeps events)

  -- If no response waits at first and all that were sent have the status 200, that is still so after
  -- any rounds, whatever they bring, and also where one raises: a 400 is never sent.
  pub rounds-IsOpen :
      (events : List Event) (z : Zap) → IsOpen z → IsOpen (rounds env clock events z).1
  rounds-IsOpen events = (rounds-Keeps events).at

  -- The first entry that matches is found.
  first_entry-append :
      (c : Connection) (before after : List AuthEntry) (e : AuthEntry)
      → All (λ f. is_match env f c ≡ ok false) before
      → is_match env e c ≡ ok true
      → first_entry env c (before ++ e ∷ after) ≡ ok (some e)
  unfolding first_entry
  first_entry-append c [] after e h found = rw found refl
  first_entry-append c (f ∷ before) after e (fails, h) found =
      rw fails (first_entry-append c before after e h found)

  -- The connection of a request with a key.
  abbrev pub curve : String → String → String → List String → Connection
  curve domain address key more = record {
    domain = domain;
    address = address;
    mechanism = "CURVE";
    credentials = text (env.encode_key key) ∷ as_bytes more;
  }

  -- After any rounds that have returned, a request with a key that comes next is answered in its
  -- round with 200 and the user id of the first entry that matches its connection, if that is a name
  -- of a user; no other response is sent, nothing else of the service changes, and the loop goes on.
  -- Before those rounds no response waited and all had the status 200.
  pub round-answered :
      (events : List Event) (start z : Zap)
      → IsOpen start
      → rounds env clock events start ≡ (ok tt, z)
      → (now : ℕ) (a b id domain address userid key : String) (more : List String)
      → (before after : List AuthEntry) (e : AuthEntry) (user : String)
      → z.service.auth_entries ≡ before ++ e ∷ after
      → All (λ f. is_match env f (curve domain address key more) ≡ ok false) before
      → is_match env e (curve domain address key more) ≡ ok true
      → e.user_id ≡ str user
      → truthy (str user) ≡ true
      → round env clock
          (record {
            now = now;
            zap = some (a ∷ b ∷ "1.0" ∷ id ∷ domain ∷ address ∷ userid ∷ "CURVE" ∷ key ∷ more);
          })
          z
        ≡ (
          ok tt,
          record z {
            responses =
                z.responses ++ (a ∷ b ∷ "1.0" ∷ id ∷ "200" ∷ "SUCCESS" ∷ user ∷ "" ∷ []) ∷ [];
            wait_list = [];
            timeout = none;
          },
        )
  unfolding round receive read_request process credentials_of encoded connection handle_some handle
      authenticate user_of decide accept_user respond settle release next_timeout ◌>>=◌
  round-answered events start z is_open ran now a b id domain address userid key more before after e
        user entries fails found named full =
      let ended = (rounds-IsOpen events start is_open).waiting in
      let waiting : z.wait_list ≡ [] = rw ran at ended in
      let first = first_entry-append (curve domain address key more) before after e fails found in
      rw (entries, first, named, full, full, waiting) refl
