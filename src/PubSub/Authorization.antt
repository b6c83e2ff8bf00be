-- ===== src/PubSub/Authorization.antt =====
-- Protected topics: the table, the check of the publisher, and what a refused publisher gets.
use mathlib.Core.List.{append_assoc, append-nil}
use text.Mathlib.TextEquality.{eq_iff}
use volttron_core.Prelude.{
  ℕ, Bool, String, ◌≡◌, ◌↔◌, refl, true, false, none, some, List, [], ◌∷◌, ◌++◌, arith, string_eq,
  contains, Option-cases, inl, inr, ◌⊎◌, All, All-append_one,
}
use volttron_core.Py.Exec.{pure, ◌>>=◌, ◌>>◌}
use volttron_core.Py.Result.{ok, raised, type_error, host_unreachable, again, other_errno}
use volttron_core.Py.Keeps.{Keeps, keeps_rules}
use volttron_core.Py.Access.{nth, as_text}
use volttron_core.Py.Value.{Value, str}
use volttron_core.Wire.{Frames, Outcome, delivered, failed, unsupported, Attempt, send_multipart}
use volttron_core.PubSub.Protected
use volttron_core.PubSub.Protected.{
  Protected, Capabilities, to_list, is_pattern, inner, is_prefix, first_match,
}
use volttron_core.PubSub.Service.{Service, Env, Action, send, attempt, sent, replied, frames_2_6}
use volttron_core.PubSub.Publish.{
  capabilities_of, is_subset, check_if_protected_topic, distribute, distribute_from, denied_reply,
}

is_subset-contains :
    (xs ys : List String)
    → is_subset xs ys ≡ true
    → (x : String) → contains x xs ≡ true
    → contains x ys ≡ true
unfolding is_subset contains
is_subset-contains [] ys h x c = cc
is_subset-contains (y ∷ xs) ys h x c =
    ground (arith, is_subset-contains xs ys (ground arith) x, eq_iff y x)

is_subset_intro :
    (xs ys : List String)
    → ((x : String) → contains x xs ≡ true → contains x ys ≡ true)
    → is_subset xs ys ≡ true
unfolding is_subset contains
is_subset_intro [] ys h = refl
is_subset_intro (x ∷ xs) ys h =
    rw (h x (ground (arith, eq_iff x x))) (is_subset_intro xs ys (λ y c. h y (ground arith)))

module _ (env : Env) where
  -- A publisher passes the check exactly when it has every capability that the topic requires, or
  -- no capabilities are known of it at all, or the topic requires none.
  pub check_if_protected_topic_exact :
      (user : Value) (topic : String) (s : Service)
      → (check_if_protected_topic env user topic s ≡ none) ↔ (
          (required caps : List String)
          → Protected.get env.matches topic s.protected_topics ≡ some required
          → capabilities_of user s.user_capabilities ≡ some caps
          → (c : String) → contains c required ≡ true
          → contains c caps ≡ true)
  unfolding check_if_protected_topic contains
  check_if_protected_topic_exact user topic s = (
    λ h required caps p u c m.
        is_subset-contains required caps (passed h required caps p u c m) c m,
    λ h. elim (Option-cases (Protected.get env.matches topic s.protected_topics)) [
      | inl e ↦ ground arith
      | inr (required, p) ↦ elim (Option-cases (capabilities_of user s.user_capabilities)) [
        | inl e ↦ ground arith
        | inr (caps, u) ↦ ground (arith, is_subset_intro required caps (h required caps p u))
      ]
    ],
  )
    where
      passed :
          check_if_protected_topic env user topic s ≡ none
          → (required caps : List String)
          → Protected.get env.matches topic s.protected_topics ≡ some required
          → capabilities_of user s.user_capabilities ≡ some caps
          → (c : String) → contains c required ≡ true
          → is_subset required caps ≡ true
      passed h [] caps p u c m = cc
      passed h (x ∷ xs) caps p u c m = ground arith

  -- The service is `before` but for attempts to send error messages to the publisher.
  pub Tells : Value → Service → Service → Type 0
  Tells publisher before after =
      (new : List Attempt) × (after ≡ record before { wire = before.wire ++ new })
      × All (λ a. (nth a.frames 0 ≡ ok publisher) × (nth a.frames 5 ≡ ok (str "error"))) new

  told_nothing : (publisher : Value) (s : Service) → Tells publisher s s
  unfolding Tells
  told_nothing publisher s = ([], ground (arith, append-nil s.wire), tt)

  attempt-Tells :
      (publisher : Value) (before : Service) (serialized : Bool) (frames : Frames)
      → nth frames 0 ≡ ok publisher
      → nth frames 5 ≡ ok (str "error")
      → Keeps (Tells publisher before) (attempt env serialized frames)
  unfolding Tells attempt send_multipart
  attempt-Tells publisher before serialized frames addressed named = record {
    at = λ s (new, e, told).
        let one : Attempt = record {
          serialized = serialized;
          frames = frames;
          outcome = env.socket s.wire serialized frames;
        } in
        (
          new ++ one ∷ [],
          ground (arith, append_assoc before.wire new (one ∷ [])),
          All-append_one _ new one told (addressed, named),
        );
  }

  replied-Tells :
      (publisher : Value) (before : Service) (outcome : Outcome)
      → Keeps (Tells publisher before) (replied env outcome)
  unfolding replied
  replied-Tells publisher before delivered = search keeps_rules
  replied-Tells publisher before (failed errno) = search keeps_rules
  replied-Tells publisher before unsupported = search keeps_rules

  sent-Tells :
      (publisher subscriber : Value) (before : Service) (frames : Frames) (outcome : Outcome)
      → Keeps (Tells publisher before) (sent env frames publisher subscriber outcome)
  unfolding sent nth
  sent-Tells publisher subscriber before frames delivered = search keeps_rules
  sent-Tells publisher subscriber before frames (failed host_unreachable) = search keeps_rules
  sent-Tells publisher subscriber before frames (failed again) =
      search (keeps_rules, attempt-Tells publisher before false, replied-Tells)
  sent-Tells publisher subscriber before frames (failed other_errno) = search keeps_rules
  sent-Tells publisher subscriber before frames unsupported = search keeps_rules

  replied-raises :
      (outcome : Outcome) (s : Service)
      → ((dropped : List Value) × ((replied env outcome s).0 ≡ ok dropped))
        ⊎ ((replied env outcome s).0 ≡ raised type_error)
  unfolding replied ◌>>=◌
  replied-raises delivered s = inl ([], refl)
  replied-raises (failed errno) s = inl ([], refl)
  replied-raises unsupported s = inr refl

  sent-raises :
      (a b proto uid msg_id subsystem publisher subscriber : Value) (rest : Frames)
      (outcome : Outcome) (s : Service)
      → let frames : Frames = a ∷ b ∷ proto ∷ uid ∷ msg_id ∷ subsystem ∷ rest in
        ((dropped : List Value) × ((sent env frames publisher subscriber outcome s).0 ≡ ok dropped))
        ⊎ ((sent env frames publisher subscriber outcome s).0 ≡ raised type_error)
  unfolding sent frames_2_6 attempt ◌>>=◌
  sent-raises a b proto uid msg_id subsystem publisher subscriber rest delivered s = inl ([], refl)
  sent-raises a b proto uid msg_id subsystem publisher subscriber rest (failed host_unreachable) s =
      inl (subscriber ∷ [], refl)
  sent-raises a b proto uid msg_id subsystem publisher subscriber rest (failed again) s =
      replied-raises _ _
  sent-raises a b proto uid msg_id subsystem publisher subscriber rest (failed other_errno) s =
      inl ([], refl)
  sent-raises a b proto uid msg_id subsystem publisher subscriber rest unsupported s = inr refl

  send-raises :
      (a b proto uid msg_id subsystem publisher : Value) (rest : Frames) (s : Service)
      → let frames : Frames = a ∷ b ∷ proto ∷ uid ∷ msg_id ∷ subsystem ∷ rest in
        ((dropped : List Value) × ((send env frames publisher s).0 ≡ ok dropped))
        ⊎ ((send env frames publisher s).0 ≡ raised type_error)
  unfolding send attempt send_multipart nth ◌>>=◌
  send-raises a b proto uid msg_id subsystem publisher rest s =
      let frames : Frames = a ∷ b ∷ proto ∷ uid ∷ msg_id ∷ subsystem ∷ rest in
      sent-raises a b proto uid msg_id subsystem publisher a rest (env.socket s.wire true frames) _

  abbrev zero_sent : Action ℕ
  zero_sent = pure 0

  counted :
      (m : Action (List Value)) (s : Service)
      → ((dropped : List Value) × ((m s).0 ≡ ok dropped)) ⊎ ((m s).0 ≡ raised type_error)
      → (((m >> zero_sent) s).0 ≡ ok 0) ⊎ (((m >> zero_sent) s).0 ≡ raised type_error)
  unfolding ◌>>=◌
  counted m s (inl (dropped, e)) = inl (rw e refl)
  counted m s (inr e) = inr (rw e refl)

  -- The message of a refusal, and the attempt to send it.
  abbrev pub refusal : Value → Value → Value → Value → Value → String → Frames
  refusal publisher proto user_id msg_id subsystem errmsg =
      publisher
      ∷ str ""
      ∷ proto
      ∷ user_id
      ∷ msg_id
      ∷ str "error"
      ∷ str "-32001"
      ∷ str errmsg
      ∷ str ""
      ∷ subsystem
      ∷ []

  abbrev pub tried : Frames → Service → Service
  tried frames s =
      let answer = env.socket s.wire true frames in
      record s {
        wire = s.wire ++ record { serialized = true; frames = frames; outcome = answer } ∷ [];
      }

  deny-Tells :
      (publisher receiver proto uid msg_id subsystem user_id : Value) (errmsg : String)
      (rest : Frames) (s : Service)
      → let frames : Frames = publisher ∷ receiver ∷ proto ∷ uid ∷ msg_id ∷ subsystem ∷ rest in
        let reply = refusal publisher proto user_id msg_id subsystem errmsg in
        Tells publisher (tried reply s) (distribute_from env frames user_id (some errmsg) s).1
        × (((distribute_from env frames user_id (some errmsg) s).0 ≡ ok 0)
            ⊎ ((distribute_from env frames user_id (some errmsg) s).0 ≡ raised type_error))
  unfolding distribute_from denied_reply nth send attempt send_multipart ◌>>=◌
  deny-Tells publisher receiver proto uid msg_id subsystem user_id errmsg rest s =
      let reply = refusal publisher proto user_id msg_id subsystem errmsg in
      let answer = env.socket s.wire true reply in
      let told : Keeps (Tells publisher (tried reply s))
          (sent env reply publisher publisher answer >> zero_sent) =
        search (keeps_rules, sent-Tells publisher publisher (tried reply s) reply answer) in
      (
        told.at (tried reply s) (told_nothing publisher (tried reply s)),
        counted (send env reply publisher) s (
            send-raises publisher (str "") proto user_id msg_id (str "error") publisher
              (str "-32001" ∷ str errmsg ∷ str "" ∷ subsystem ∷ []) s),
      )

  -- For a refused publisher the first attempt to send is that of an error to the publisher, with the
  -- message of the check; any further attempt is that of an error to the publisher too, and nothing
  -- else of the service changes. The count is 0, unless the socket refuses a frame that is not
  -- bytes, which raises `TypeError`.
  pub distribute_denied :
      (publisher receiver proto uid msg_id subsystem op payload user_id : Value)
      (topic errmsg : String) (rest : Frames) (s : Service)
      → check_if_protected_topic env user_id topic s ≡ some errmsg
      → let frames : Frames =
          publisher
          ∷ receiver
          ∷ proto
          ∷ uid
          ∷ msg_id
          ∷ subsystem
          ∷ op
          ∷ str topic
          ∷ payload
          ∷ rest in
        let reply = refusal publisher proto user_id msg_id subsystem errmsg in
        Tells publisher (tried reply s) (distribute env frames user_id s).1
        × (((distribute env frames user_id s).0 ≡ ok 0)
            ⊎ ((distribute env frames user_id s).0 ≡ raised type_error))
  unfolding distribute as_text nth ◌>>=◌
  distribute_denied publisher receiver proto uid msg_id subsystem op payload user_id topic errmsg
        rest s h =
      rw h (
        deny-Tells publisher receiver proto uid msg_id subsystem user_id errmsg
          (op ∷ str topic ∷ payload ∷ rest) s)
