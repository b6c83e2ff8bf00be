-- ===== src/Config/Recursion.antt =====
-- What the check for recursion of volttron/utils/storeutils.py finds.
use mathlib.Core.Path.{subst}
use text.Mathlib.TextEquality.{eq_iff}
use volttron_core.Prelude.{
  ℕ, zero, suc, ◌≤◌, ◌<◌, ◌≡◌, refl, String, Bool, true, false, Option, none, some, List, [], ◌∷◌,
  arith, ap, length, contains, contains-add, add, All, beq_refl, Bool-cases, Option-cases, inl, inr,
  ◌==◌, string_eq, if◌then◌else◌,
}
use volttron_core.Py.Dict.{Dict, lookup}
use volttron_core.Py.Text.{lower}
use volttron_core.Py.Value.{Value}
use volttron_core.Config.Links.{
  list_unique_links, minus, follow_children, follow_links, found_of, check_for_recursion,
}
use volttron_core.Config.Seen.{
  Grown, All-contains, All-minus, contains-minus, differs, unseen, unseen-le-length, unseen-lt,
}

module _ (name : String) (new_config : Value) (existing : Dict Value) where
  -- The configuration under a name, once the new one is stored.
  abbrev config_of : String → Option Value
  config_of m = if m == name then some new_config else lookup m existing

  abbrev links_at : Option Value → List String
  links_at none = []
  links_at (some config) = list_unique_links config

  abbrev pub children_of : String → List String
  children_of m = links_at (config_of m)

  -- A chain of links leads from the new configuration to this name.
  pub data Reaches : String → Type 0 where
    start : Reaches name
    link : {m c : String} → Reaches m → contains c (children_of m) ≡ true → Reaches c

  abbrev Closed : List String → String → Type 0
  Closed S m =
      (contains name (children_of m) ≡ false)
      × ((c : String) → contains c (children_of m) ≡ true → contains c S ≡ true)

  record Explored (S S' : List String) : Type 0 where
    pub grown : Grown S S'
    pub closed : (m : String) → contains m S' ≡ true → contains m S ≡ false → Closed S' m

  -- There is a chain of links from the new configuration back to it.
  abbrev pub IsRecursive : Type 0
  IsRecursive = (m : String) × Reaches m × (contains name (children_of m) ≡ true)

  abbrev Verdict : String → List String → Bool × List String → Type 0
  Verdict current S (true, S') = IsRecursive
  Verdict current S (false, S') = Explored S S' × (contains current S' ≡ true) × Closed S' current

  abbrev ListVerdict : List String → List String → Bool × List String → Type 0
  ListVerdict cs S (true, S') = IsRecursive
  ListVerdict cs S (false, S') = Explored S S' × All (λ c. contains c S' ≡ true) cs

  Explored-self : (S : List String) → Explored S S
  Explored-self S = record { grown = λ m h. h; closed = λ m h n. cc }

  Explored-trans : (S T U : List String) → Explored S T → Explored T U → Explored S U
  Explored-trans S T U a b = record {
    grown = λ m h. b.grown m (a.grown m h);
    closed = λ m h n. elim (Bool-cases (contains m T)) [
      | inl old ↦ let (stops, inside) = a.closed m old n in (stops, λ c l. b.grown c (inside c l))
      | inr new ↦ b.closed m h new
    ];
  }

  Explored-add : (S : List String) (c : String) → Closed (add c S) c → Explored S (add c S)
  Explored-add S c k = record {
    grown = λ m h. ground (arith, contains-add c m S);
    closed = λ m h n.
        subst (λ x. Closed (add c S) x) ((eq_iff c m).0 (ground (arith, contains-add c m S, h, n)))
          k;
  }

  missing-Closed :
      (S : List String) (c : String) → lookup c existing ≡ none → (c == name) ≡ false → Closed S c
  unfolding contains
  missing-Closed S c missing other = rw (other, missing) (refl, λ x h. cc)

  -- What a call promises for a name that is reached, if fewer than `n` names are unseen after it.
  abbrev Visits : ℕ → (String → Value → List String → Option (Bool × List String)) → Type 0
  Visits n visit =
      (current : String) (config : Value) (S : List String)
      → config_of current ≡ some config
      → Reaches current
      → unseen existing (add current S) < n
      → (r : Bool × List String) × (visit current config S ≡ some r) × Verdict current S r

  -- A child to be visited: it was not seen when the loop began, and is not the new name.
  record IsChild (S₀ : List String) (c : String) : Type 0 where
    pub fresh : contains c S₀ ≡ false
    pub reached : Reaches c
    pub other : (c == name) ≡ false

  after_child :
      (c : String) (cs S T : List String) (r : Bool × List String)
      → Explored S T
      → contains c T ≡ true
      → ListVerdict cs T r
      → ListVerdict (c ∷ cs) S r
  after_child c cs S T (true, S') first here v = v
  after_child c cs S T (false, S') first here (explored, all) =
      (Explored-trans S T S' first explored, (explored.grown c here, all))

  module _ (n : ℕ) (visit : String → Value → List String → Option (Bool × List String))
      (visits : Visits n visit) (S₀ : List String) (few : unseen existing S₀ ≤ n) where
    abbrev Answered : List String → List String → Type 0
    Answered cs S =
        (r : Bool × List String) × (follow_children name existing visit cs S ≡ some r)
        × ListVerdict cs S r

    missing_child :
        (c : String) (cs S : List String)
        → lookup c existing ≡ none
        → (c == name) ≡ false
        → Answered cs (add c S)
        → Answered (c ∷ cs) S
    unfolding follow_children
    missing_child c cs S missing other (r, e, verdict) =
        let none_there = missing-Closed (add c S) c missing other in
        let here : contains c (add c S) ≡ true = ground (arith, contains-add c c S, beq_refl c) in
        (
          r,
          ground (arith, missing, e),
          after_child c cs S (add c S) r (Explored-add S c none_there) here verdict,
        )

    found_child :
        (c : String) (cs S : List String) (config : Value) (r : Bool × List String)
        → lookup c existing ≡ some config
        → visit c config S ≡ some r
        → Verdict c S r
        → ((T : List String) → Grown S T → Answered cs T)
        → Answered (c ∷ cs) S
    unfolding follow_children
    found_child c cs S config (true, T) found e v rest = ((true, T), ground (arith, found, e), v)
    found_child c cs S config (false, T) found e (explored, here, _) rest =
        let (r, e', verdict) = rest T explored.grown in
        (r, ground (arith, found, e, e'), after_child c cs S T r explored here verdict)

    children_verdict : (cs S : List String) → Grown S₀ S → All (IsChild S₀) cs → Answered cs S
    unfolding follow_children
    children_verdict [] S g all = ((false, S), refl, (Explored-self S, tt))
    children_verdict (c ∷ cs) S g (child, all) =
        let g' : Grown S₀ (add c S) = λ m h. ground (arith, contains-add c m S, g m h) in
        elim (Option-cases (lookup c existing)) [
          | inl missing ↦
              missing_child c cs S missing child.other (children_verdict cs (add c S) g' all)
          | inr (config, found) ↦
              let here : contains c (add c S) ≡ true =
                ground (arith, contains-add c c S, beq_refl c) in
              let fewer = unseen-lt existing S₀ (add c S) c config g' found child.fresh here in
              let (r, e, verdict) =
                visits c config S (rw child.other found) child.reached
                  (omega (arith, fewer, few)) in
              found_child c cs S config r found e verdict
                λ T h. children_verdict cs T (λ m k. h m (g m k)) all
        ]

  after_children :
      (current : String) (config : Value) (S : List String) (r : Bool × List String)
      → config_of current ≡ some config
      → contains name (list_unique_links config) ≡ false
      → ListVerdict (minus (list_unique_links config) (add current S)) (add current S) r
      → Verdict current S r
  after_children current config S (true, S') here away v = v
  after_children current config S (false, S') here away (explored, all) =
      let links = list_unique_links config in
      let T = add current S in
      let inside : (c : String) → contains c links ≡ true → contains c S' ≡ true = λ c m.
        elim (Bool-cases (contains c T)) [
          | inl old ↦ explored.grown c old
          | inr new ↦
              All-contains (λ x. contains x S' ≡ true) (minus links T) c all
                (contains-minus c links T m new)
        ] in
      let closed : Closed S' current = rw here (away, inside) in
      (
        record {
          grown = λ m h. explored.grown m (ground (arith, contains-add current m S));
          closed = λ m h n. elim (Bool-cases (contains m T)) [
            | inl old ↦
                subst (Closed S') ((eq_iff current m).0 (ground (arith, contains-add current m S)))
                  closed
            | inr new ↦ explored.closed m h new
          ];
        },
        explored.grown current (ground (arith, contains-add current current S, beq_refl current)),
        closed,
      )

  follow_verdict : (n : ℕ) → Visits n (follow_links name existing n)
  unfolding follow_links
  follow_verdict zero current config S here reached few = absurd (omega arith)
  follow_verdict (suc n) current config S here reached few =
      elim (Bool-cases (contains name (list_unique_links config))) [
        | inl back ↦ ((true, S), rw back refl, (current, reached, rw here back))
        | inr away ↦
            let links = list_unique_links config in
            let T = add current S in
            let child : (c : String)
                → contains c links ≡ true
                → contains c T ≡ false
                → IsChild T c =
              λ c m fresh. record {
                fresh = fresh;
                reached = link reached (rw here m);
                other = differs c name links m away;
              } in
            let (r, e, verdict) =
              children_verdict n (follow_links name existing n) (follow_verdict n) T
                (omega (arith, few)) (minus links T) T (λ m h. h)
                (All-minus (IsChild T) links T child) in
            (r, rw away e, after_children current config S r here away verdict)
      ]

  Reaches-Closed :
      (S : List String)
      → contains name S ≡ true
      → ((m : String) → contains m S ≡ true → Closed S m)
      → {m : String} → Reaches m
      → contains m S ≡ true
  Reaches-Closed S h closed start = h
  Reaches-Closed S h closed (link {m} {c} reached l) =
      (closed m (Reaches-Closed S h closed reached)).1 c l

  -- What the answer of the check means.
  abbrev pub Answer : Bool → Type 0
  Answer true = IsRecursive
  Answer false = (m : String) → Reaches m → contains name (children_of m) ≡ false

  answered : (r : Bool × List String) → Verdict name [] r → Answer r.0
  unfolding contains
  answered (true, S) v = v
  answered (false, S) (explored, here, closed) = λ m reached.
      let all : (m : String) → contains m S ≡ true → Closed S m = λ m h. explored.closed m h refl in
      (all m (Reaches-Closed S here all reached)).0

-- The check ends with an answer: `True` only if a chain of links leads from the new configuration
-- back to its name, `False` only if no chain does, where the names of configurations are those
-- under which they are stored, and links are read in lower case.
pub check_for_recursion_exact :
    (new_config_name : String) (new_config : Value) (existing : Dict Value)
    → (found : Bool) × (check_for_recursion new_config_name new_config existing ≡ some found)
      × Answer (lower new_config_name) new_config existing found
unfolding check_for_recursion
check_for_recursion_exact new_config_name new_config existing =
    let name = lower new_config_name in
    let (r, e, verdict) =
      follow_verdict name new_config existing (suc (length existing)) name new_config []
        (rw (beq_refl name) refl) start (omega (arith, unseen-le-length existing (add name []))) in
    (r.0, ap found_of e, answered name new_config existing r verdict)
