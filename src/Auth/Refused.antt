-- ===== src/Auth/Refused.antt =====
-- `read_auth_file` and `authenticate` of `AuthService` (services/auth/auth_service.py): which
-- entries let a connection in.
use volttron_core.Prelude.{
  suc, String, ◌≡◌, refl, true, false, none, List, [], ◌∷◌, All, Bool-cases, inl, inr,
  if◌then◌else◌, string_eq,
}
use volttron_core.Py.Dict.{Dict}
use volttron_core.Py.Keeps.{
  Keeps, Keeps-pure, Keeps-raise, Keeps-lift, Keeps-gets, Keeps-if, Keeps-bind, Keeps-then,
}
use volttron_core.Py.Exec.{pure, gets, ◌>>=◌}
use volttron_core.Py.Result.{ok}
use volttron_core.Py.Value.{Value, truthy}
use volttron_core.Auth.Entry.{AuthEntry}
use volttron_core.Auth.Reading.{Contents, read_at}
use volttron_core.Auth.File.{read, read_allow_entries, read_deny_entries}
use volttron_core.Auth.Service.{
  AuthService, ServiceEnv, Sent, on_file, update_auth_lists, enabled_entries, read_auth_file,
  send_capabilities, send_each, send, send_auth_update_to_pubsub, find_peers, peer_update,
  pubsub_update,
}
use volttron_core.Auth.Authenticate.{
  Connection, is_match, first_entry, authenticate, without_entry, is_local, any_user,
}

-- The entry is not enabled, or does not match the connection.
abbrev pub IsPassedOver : ServiceEnv → Connection → AuthEntry → Type 0
IsPassedOver env c e = truthy e.enabled ≡ true → is_match env e c ≡ ok false

module _ (env : ServiceEnv) (c : Connection) where
  abbrev Fails : AuthEntry → Type 0
  Fails e = is_match env e c ≡ ok false

  first_entry-none : (es : List AuthEntry) → All Fails es → first_entry env c es ≡ ok none
  unfolding first_entry
  first_entry-none [] h = refl
  first_entry-none (e ∷ es) (fails, h) = rw fails (first_entry-none es h)

  enabled_entries-Fails :
      (es : List AuthEntry) → All (IsPassedOver env c) es → All Fails (enabled_entries es)
  unfolding enabled_entries
  enabled_entries-Fails [] h = tt
  enabled_entries-Fails (e ∷ es) (passed, h) = elim (Bool-cases (truthy e.enabled)) [
    | inl enabled ↦ rw enabled (passed enabled, enabled_entries-Fails es h)
    | inr disabled ↦ rw disabled (enabled_entries-Fails es h)
  ]

  authenticate-none :
      (s : AuthService)
      → All Fails s.auth_entries
      → is_local c ≡ false
      → env.allow_any ≡ false
      → authenticate env s c ≡ ok none
  unfolding authenticate without_entry any_user
  authenticate-none s fails remote strict =
      rw (first_entry-none s.auth_entries fails, remote, strict) refl

  -- Sending the capabilities does not touch the entries.
  abbrev HasFails : AuthService → Type 0
  HasFails s = All Fails s.auth_entries

  send-HasFails : (message : Sent) → Keeps HasFails (send env message)
  unfolding send
  send-HasFails message = record { at = λ s h. h }

  send_each-HasFails :
      (caps : Dict Value) (peers : List String) → Keeps HasFails (send_each env caps peers)
  unfolding send_each
  send_each-HasFails caps [] = Keeps-pure tt
  send_each-HasFails caps (peer ∷ peers) =
      Keeps-then _ _ (Keeps-if _ _ _ (Keeps-pure tt) (send-HasFails (peer_update peer caps)))
        (send_each-HasFails caps peers)

  to_pubsub-HasFails : Keeps HasFails (send_auth_update_to_pubsub env)
  unfolding send_auth_update_to_pubsub
  to_pubsub-HasFails =
      Keeps-bind _ _ (Keeps-gets _)
        λ s. Keeps-bind _ _ (Keeps-lift _) λ caps. send-HasFails (pubsub_update caps)

  send_capabilities-HasFails : Keeps HasFails (send_capabilities env)
  unfolding send_capabilities
  send_capabilities-HasFails = Keeps-bind _ _ (Keeps-gets _) λ s.
      Keeps-bind _ _ (Keeps-lift _) λ caps.
        Keeps-if _ _ _ (Keeps-raise _)
          (Keeps-then _ _ (send_each-HasFails caps (find_peers env 0 3)) to_pubsub-HasFails)

  announced-HasFails : Keeps HasFails (do
    connected ← gets (λ s. s.is_connected)
    if connected then send_capabilities env else pure tt)
  announced-HasFails =
      Keeps-bind _ _ (Keeps-gets _)
        λ connected. Keeps-if _ _ _ send_capabilities-HasFails (Keeps-pure tt)

  read_auth_file-HasFails :
      (s : AuthService) (contents later : Contents)
      → read_at env.fields s.auth_file.readings s.auth_file.auth_data ≡ ok contents
      → read_at env.fields (suc s.auth_file.readings) s.auth_file.auth_data ≡ ok later
      → ((es : List AuthEntry) → All Fails es → All Fails (env.sort es))
      → All (IsPassedOver env c) contents.allow
      → HasFails (read_auth_file env s).1
  unfolding read_auth_file on_file read_allow_entries read_deny_entries read update_auth_lists ◌>>=◌
  read_auth_file-HasFails s contents later first second sorts passed =
      rw (first, second)
        (announced-HasFails.at _
          (sorts (enabled_entries contents.allow) (enabled_entries-Fails contents.allow passed)))

  -- Once the file has been read, a connection that no enabled allowed entry of the file matches is
  -- refused, unless it is a local one without credentials or the service allows any; also if the
  -- capabilities could not be sent. `sort` only has to permute: what holds of all entries
  -- still does.
  pub authenticate-read_auth_file :
      (s : AuthService) (contents later : Contents)
      → read_at env.fields s.auth_file.readings s.auth_file.auth_data ≡ ok contents
      → read_at env.fields (suc s.auth_file.readings) s.auth_file.auth_data ≡ ok later
      → ((P : AuthEntry → Type 0) (es : List AuthEntry) → All P es → All P (env.sort es))
      → All (IsPassedOver env c) contents.allow
      → is_local c ≡ false
      → env.allow_any ≡ false
      → authenticate env (read_auth_file env s).1 c ≡ ok none
  authenticate-read_auth_file s contents later first second sorts passed remote strict =
      authenticate-none (read_auth_file env s).1
        (read_auth_file-HasFails s contents later first second (sorts Fails) passed) remote strict
