-- ===== src/Config/Agent/Affected.antt =====
-- What `_gather_affected` marks, and how deep it goes.
use mathlib.Core.Path.{subst}
use text.Mathlib.TextEquality.{eq_iff}
use volttron_core.Prelude.{
  ℕ, zero, suc, ◌≤◌, ◌<◌, String, ◌≡◌, ◌↔◌, refl, true, false, List, [], ◌∷◌, arith, length,
  contains, contains-append, string_eq, ◌==◌, beq_refl, Bool-cases, inl, inr,
}
use volttron_core.Py.Dict.{Dict, lookup, get_or, has, insert, get_or-insert, has-insert}
use volttron_core.Py.Exec.{pure, ◌>>=◌}
use volttron_core.Py.Result.{Result, ok}
use volttron_core.Config.Agent.Left.{left, left-le-length, left-insert-lt}
use volttron_core.Config.Agent.{AgentConfig, Step}
use volttron_core.Config.Agent.Gather.{
  gather_referrers, gather_affected_within, gather_affected, referrers,
}

contains-referrers :
    (name ref : String) (m : Dict (List String))
    → contains ref (get_or name m []) ≡ true
    → contains ref (referrers m) ≡ true
unfolding referrers get_or lookup contains
contains-referrers name ref [] h = cc
contains-referrers name ref ((r, names) ∷ m) h =
    ground (arith, h, contains-append ref names (referrers m), contains-referrers name ref m)

module _ (name : String) (start_state : AgentConfig) where
  -- The configurations that link to one, as the search finds them.
  abbrev pub linking : String → List String
  linking m = get_or m start_state.reverse_ref_map []

  -- A chain of links leads from this configuration to the one that has changed.
  pub data IsAffected : String → Type 0 where
    itself : IsAffected name
    through : {m ref : String} → IsAffected m → contains ref (linking m) ≡ true → IsAffected ref

  abbrev xs : List String
  xs = referrers start_state.reverse_ref_map

  abbrev inside : (m ref : String) → contains ref (linking m) ≡ true → contains ref xs ≡ true
  inside m ref h = contains-referrers m ref start_state.reverse_ref_map h

  -- No set of referrers has changed.
  abbrev Same : AgentConfig → Type 0
  Same s = (m : String) → get_or m s.reverse_ref_map [] ≡ linking m

  record Ends (seen : Dict String) (o : Result (Dict String) × AgentConfig) : Type 0 where
    pub value : Dict String
    pub state : AgentConfig
    pub ends : o ≡ (ok value, state)
    pub same : Same state
    pub fewer : left xs value ≤ left xs seen
    pub grown : (m : String) → has m seen ≡ true → has m value ≡ true
    pub closed :
        (m ref : String)
        → has m value ≡ true
        → has m seen ≡ false
        → contains ref (linking m) ≡ true
        → has ref value ≡ true
    pub sound : (m : String) → has m value ≡ true → has m seen ≡ false → IsAffected m

  abbrev Marks : List String → Dict String → Result (Dict String) × AgentConfig → Type 0
  Marks refs seen o =
      (e : Ends seen o) × ((ref : String) → contains ref refs ≡ true → has ref e.value ≡ true)

  abbrev Ending : ℕ → (String → Dict String → Step (Dict String)) → Type 0
  Ending n visit =
      (m : String) (seen : Dict String) (s : AgentConfig)
      → IsAffected m
      → left xs seen < n
      → Same s
      → Marks (linking m) seen (visit m seen s)

  -- One referrer is marked and visited, and then the rest.
  marked :
      (ref action : String) (seen : Dict String) (first rest : Result (Dict String) × AgentConfig)
      → IsAffected ref
      → (a : Ends (insert ref action seen) first)
      → ((r : String) → contains r (linking ref) ≡ true → has r a.value ≡ true)
      → (b : Ends a.value rest) → left xs (insert ref action seen) ≤ left xs seen
      → Ends seen rest
  marked ref action seen first rest reached a all b less = record {
    value = b.value;
    state = b.state;
    ends = b.ends;
    same = b.same;
    fewer = omega (arith, b.fewer, a.fewer, less);
    grown = λ m h. b.grown m (a.grown m (ground (arith, has-insert ref m action seen, h)));
    closed = λ m r h new l. elim (Bool-cases (has m a.value)) [
      | inr later ↦ b.closed m r h later l
      | inl early ↦ elim (Bool-cases (ref == m)) [
        | inl here ↦ b.grown r (all r (ground (arith, l, eq_iff ref m, here)))
        | inr other ↦
            b.grown r
              (a.closed m r early (ground (arith, has-insert ref m action seen, other, new)) l)
      ]
    ];
    sound = λ m h new. elim (Bool-cases (has m a.value)) [
      | inr later ↦ b.sound m h later
      | inl early ↦ elim (Bool-cases (ref == m)) [
        | inl here ↦ subst IsAffected ((eq_iff ref m).0 here) reached
        | inr other ↦ a.sound m early (ground (arith, has-insert ref m action seen, other, new))
      ]
    ];
  }

  gather_referrers-Marks :
      (n : ℕ) (visit : String → Dict String → Step (Dict String))
      → Ending n visit
      → (refs : List String) (seen : Dict String) (s : AgentConfig) → left xs seen ≤ n
      → Same s
      → ((ref : String) → contains ref refs ≡ true → IsAffected ref × (contains ref xs ≡ true))
      → Marks refs seen (gather_referrers visit refs seen s)
  unfolding gather_referrers pure contains ◌>>=◌
  gather_referrers-Marks n visit h [] seen s few same all = (
    record {
      value = seen;
      state = s;
      ends = refl;
      same = same;
      fewer = omega arith;
      grown = λ m e. e;
      closed = λ m ref e n. cc;
      sound = λ m e n. cc;
    },
    λ ref e. cc,
  )
  gather_referrers-Marks n visit h (ref ∷ refs) seen s few same all =
      let (reached, listed) = all ref (rw (beq_refl ref) refl) in
      let all' = λ (r : String) (m : contains r refs ≡ true). all r (ground (arith, m)) in
      elim (Bool-cases (has ref seen)) [
        | inl old ↦
            let (rest, marks) = gather_referrers-Marks n visit h refs seen s few same all' in
            rw old (rest, λ r m. ground (arith, m, eq_iff ref r, rest.grown ref old, marks r))
        | inr new ↦
            let less = left-insert-lt ref "UPDATE" xs seen listed new in
            let (first, found) =
              h ref (insert ref "UPDATE" seen) s reached (omega (arith, few, less)) same in
            let (rest, marks) =
              gather_referrers-Marks n visit h refs first.value first.state
                (omega (arith, few, less, first.fewer)) first.same all' in
            let here =
              rest.grown ref (
                first.grown ref (ground (arith, has-insert ref ref "UPDATE" seen, beq_refl ref))) in
            rw new (
              rw first.ends (
                marked ref "UPDATE" seen _ _ reached first found rest (omega (arith, less)),
                λ r m. ground (arith, m, eq_iff ref r, here, marks r),
              ))
      ]

  gather_within-Marks : (n : ℕ) → Ending n (gather_affected_within n)
  unfolding gather_affected_within ◌>>=◌
  gather_within-Marks zero m seen s reached few same = absurd (omega (arith, few))
  gather_within-Marks (suc n) m seen s reached few same =
      let marks =
        gather_referrers-Marks n (gather_affected_within n) (gather_within-Marks n) (linking m) seen
          _ (omega (arith, few))
          (λ r. ground (
            arith,
            same r,
            same m,
            get_or-insert m r (get_or m s.reverse_ref_map []) [] s.reverse_ref_map,
            eq_iff m r,
          ))
          (λ ref l. (through reached l, inside m ref l)) in
      rw (same m) marks

gather_affected-Marks :
    (name : String) (seen : Dict String) (s : AgentConfig)
    → Marks name s (linking name s name) seen (gather_affected name seen s)
unfolding gather_affected ◌>>=◌
gather_affected-Marks name seen s =
    let names = referrers s.reverse_ref_map in
    gather_within-Marks name s (suc (length names)) name seen s itself
      (omega (arith, left-le-length names seen)) (λ m. refl)

-- `_gather_affected` ends with an answer, whatever the maps of references are: the depth that is
-- counted is never used up.
pub gather_affected_enough :
    (name : String) (seen : Dict String) (s : AgentConfig)
    → (seen' : Dict String) × (s' : AgentConfig) × (gather_affected name seen s ≡ (ok seen', s'))
gather_affected_enough name seen s =
    let (found, _) = gather_affected-Marks name seen s in (found.value, found.state, found.ends)

-- `_gather_affected` marks exactly the configuration itself and those from which a chain of links
-- leads to it, also where links go round in a circle.
pub gather_affected_exact :
    (name action : String) (s : AgentConfig)
    → (seen : Dict String) × (s' : AgentConfig) × (gather_affected name ((name, action) ∷ []) s
        ≡ (ok seen, s'))
      × ((m : String) → (has m seen ≡ true) ↔ IsAffected name s m)
unfolding has lookup
gather_affected_exact name action s =
    let (found, all) = gather_affected-Marks name ((name, action) ∷ []) s in
    (found.value, found.state, found.ends, λ m. (sound found m, complete found all m))
  where
    sound :
        (e : Ends name s ((name, action) ∷ []) (gather_affected name ((name, action) ∷ []) s))
        (m : String)
        → has m e.value ≡ true
        → IsAffected name s m
    sound e m h = elim (Bool-cases (name == m)) [
      | inl here ↦ subst (IsAffected name s) ((eq_iff name m).0 here) itself
      | inr other ↦ e.sound m h (ground (arith, other))
    ]

    complete :
        (e : Ends name s ((name, action) ∷ []) (gather_affected name ((name, action) ∷ []) s))
        → ((ref : String) → contains ref (linking name s name) ≡ true → has ref e.value ≡ true)
        → (m : String) → IsAffected name s m
        → has m e.value ≡ true
    complete e all m itself = e.grown name (ground (arith, beq_refl name))
    complete e all m (through {m = k} reached l) = elim (Bool-cases (name == k)) [
      | inl here ↦ all m (ground (arith, l, eq_iff name k, here))
      | inr other ↦ e.closed k m (complete e all k reached) (ground (arith, other)) l
    ]
