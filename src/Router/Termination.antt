-- ===== src/Router/Termination.antt =====
-- `_drop_peer` and `_distribute` end: each round takes a peer out of `_peers`.
use mathlib.Core.Path.{sym}
use volttron_core.Prelude.{
  ℕ, zero, suc, ◌<◌, ◌≤◌, ◌≡◌, refl, Bool, true, false, List, [], ◌∷◌, arith, length, contains,
  discard, if◌then◌else◌, Eq,
}
use volttron_core.Py.Exec.{Exec, modify, continue, gets, guard, pure, raise, ◌>>=◌, ◌>>◌}
use volttron_core.Py.Keeps.{Keeps}
use volttron_core.Py.Result.{Exception, Result, ok, raised, type_error}
use volttron_core.Py.Value.{Value, str, value_eq}
use volttron_core.Wire.{Frames}
use volttron_core.PubSub.Service.{peer_drop, attempt}
use volttron_core.Router.State.{Router, Step, Platform, peer_dropped, on_service}
use volttron_core.Router.Peers.{
  hashable, notify, tell, drop_each, distribute_by, forget_peer, drop_peer_within, drop_peer,
  out_of_fuel,
}
use volttron_core.Router.Steady.{Steady, tell-Keeps, drop_peer_within-Keeps}

module _ {ℓ} {A : Type ℓ} ⦃e : Eq A⦄ where
  length-discard : (a : A) (xs : List A) → length (discard a xs) ≤ length xs
  unfolding discard
  length-discard a [] = ground arith
  length-discard a (x ∷ xs) = ground (arith, length-discard a xs)

  length-discard_known :
      (a : A) (xs : List A) → contains a xs ≡ true → length (discard a xs) < length xs
  unfolding discard contains
  length-discard_known a [] h = ground arith
  length-discard_known a (x ∷ xs) h = ground (arith, length-discard_known a xs, length-discard a xs)

module _ {ℓ κ μ} {S : Type ℓ} {A : Type κ} {B : Type μ} where
  continue_same :
      (r : Result A) (s : S) (f g : A → Exec S B)
      → ((a : A) → f a s ≡ g a s)
      → continue r f s ≡ continue r g s
  continue_same (ok a) s f g h = h a
  continue_same (raised e) s f g h = refl

  -- Two blocks that begin alike at `s` and go on alike from there.
  bind_same :
      (m n : Exec S A) (f g : A → Exec S B) (s : S)
      → m s ≡ n s
      → ((a : A) → f a (m s).1 ≡ g a (m s).1)
      → (m >>= f) s ≡ (n >>= g) s
  unfolding ◌>>=◌
  bind_same m n f g s e h = rw (sym e) (continue_same (m s).0 (m s).1 f g h)

guard_same :
    (b : Bool) (why : Exception) (m n : Step (Unit {0})) (r : Router)
    → m r ≡ n r
    → (guard b why >> m) r ≡ (guard b why >> n) r
unfolding guard ◌>>=◌
guard_same true why m n r h = h
guard_same false why m n r h = refl

module _ (env : Platform) where
  abbrev Fewer : ℕ → Router → Type 0
  Fewer n r = length r.peers < n

  fewer : (n : ℕ) → Steady env (Fewer n)
  unfolding on_service forget_peer notify modify attempt
  fewer n = record {
    kept_by_attempt = λ serialized frames. record { at = λ r h. h };
    kept_by_peer_drop = λ peer. record { at = λ r h. h };
    kept_by_forget = λ peer. record { at = λ r h. ground (arith, h, length-discard peer r.peers) };
    kept_by_notify = λ notice. record { at = λ r h. h };
  }

  module _ (k : ℕ) (d d' : Value → Step (Unit {0}))
      (same : (peer : Value) (r : Router) → Fewer k r → d peer r ≡ d' peer r)
      (kept : (peer : Value) → Keeps (Fewer k) (d peer)) where
    drop_each_same :
        (peers : List Value) (r : Router)
        → Fewer k r
        → drop_each env d peers r ≡ drop_each env d' peers r
    unfolding drop_each
    drop_each_same [] r h = refl
    drop_each_same (peer ∷ peers) r h = bind_same (d peer) (d' peer) _ _ r (same peer r h) λ _.
        bind_same (notify (peer_dropped peer)) (notify (peer_dropped peer)) _ _ _ refl
          λ _. drop_each_same peers _ (((fewer k).kept_by_notify _).at _ ((kept peer).at r h))

    distribute_by_same :
        (parts : Frames) (r : Router)
        → Fewer k r
        → distribute_by env d parts r ≡ distribute_by env d' parts r
    unfolding distribute_by gets
    distribute_by_same parts r h =
        bind_same (gets (λ s. s.peers)) (gets (λ s. s.peers)) _ _ r refl λ peers.
          bind_same (tell env parts peers []) (tell env parts peers []) _ _ r refl λ dropped.
            drop_each_same dropped _ ((tell-Keeps env (Fewer k) (fewer k) parts peers []).at r h)

    forget_same :
        (peer : Value) (parts : Frames) (known : Bool) (r : Router)
        → contains peer r.peers ≡ known
        → Fewer (suc k) r
        → (if known
              then forget_peer env peer
                >> (distribute_by env d parts >> on_service (peer_drop env.pubsub_env peer))
              else pure tt)
            r
          ≡ (if known
                then forget_peer env peer
                  >> (distribute_by env d' parts >> on_service (peer_drop env.pubsub_env peer))
                else pure tt)
              r
    unfolding forget_peer modify
    forget_same peer parts false r c h = refl
    forget_same peer parts true r c h =
        bind_same (forget_peer env peer) (forget_peer env peer) _ _ r refl λ _.
          bind_same (distribute_by env d parts) (distribute_by env d' parts) _ _ _
            (distribute_by_same parts _ (ground (arith, length-discard_known peer r.peers c, h)))
            λ _. refl

  out_of_fuel-Keeps : (k : ℕ) → Keeps (Fewer k) (out_of_fuel env)
  unfolding out_of_fuel raise
  out_of_fuel-Keeps k = record { at = λ r h. h }

  drop_peer_within_same :
      (k n m : ℕ) (spent : Step (Unit {0}))
      → k ≤ n
      → k ≤ m
      → (peer : Value) (r : Router) → Fewer k r
      → drop_peer_within env (out_of_fuel env) n peer r ≡ drop_peer_within env spent m peer r
  unfolding drop_peer_within gets ◌>>=◌
  drop_peer_within_same zero n m spent kn km peer r h = absurd (omega arith)
  drop_peer_within_same (suc k) zero m spent kn km peer r h = absurd (omega arith)
  drop_peer_within_same (suc k) (suc n) zero spent kn km peer r h = absurd (omega arith)
  drop_peer_within_same (suc k) (suc n) (suc m) spent kn km peer r h =
      guard_same (hashable peer) type_error _ _ r (
        forget_same k (drop_peer_within env (out_of_fuel env) n) (drop_peer_within env spent m)
          (drop_peer_within_same k n m spent (omega arith) (omega arith))
          (drop_peer_within-Keeps env (Fewer k) (fewer k) (out_of_fuel env) (out_of_fuel-Keeps k) n)
          peer (str "peerlist" ∷ str "drop" ∷ peer ∷ []) (contains peer r.peers) r refl h)

  -- With more rounds than there are peers, dropping a peer is the same whatever would be done after
  -- the last round: the recursion of `_drop_peer` and `_distribute` has ended before.
  pub drop_peer_within_enough :
      (spent : Step (Unit {0})) (n : ℕ) (peer : Value) (r : Router)
      → length r.peers < n
      → drop_peer_within env spent n peer r ≡ drop_peer env peer r
  unfolding drop_peer
  drop_peer_within_enough spent n peer r h =
      sym (
        drop_peer_within_same (suc (length r.peers)) _ n spent (omega arith) h peer r (omega arith))
