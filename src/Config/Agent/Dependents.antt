-- ===== src/Config/Agent/Dependents.antt =====
-- What `_gather_affected` marks, told by the links of the configurations themselves.
use volttron_core.Prelude.{
  String, ◌≡◌, ◌↔◌, sym, ◌∙◌, true, some, List, [], ◌∷◌, contains, string_eq, Option-cases, inl,
  inr, arith,
}
use volttron_core.Py.Dict.{Dict, lookup, get_or, has}
use volttron_core.Py.Result.{ok}
use volttron_core.Config.Agent.{AgentConfig}
use volttron_core.Config.Agent.Gather.{gather_affected}
use volttron_core.Config.Agent.Affected.{IsAffected, itself, through, gather_affected_exact}
use volttron_core.Config.Agent.Current.{IsCurrent, effective_links}

-- A chain of links leads from this configuration to the one of the name: the first is one of the
-- links in its contents, those that are stored or else the default.
pub data DependsOn (name : String) (s : AgentConfig) : String → Type 0 where
  same : DependsOn name s name
  by_link :
      {m ref : String} {links : List String}
      → DependsOn name s m
      → effective_links (lookup ref s.store) (lookup ref s.default_store) ≡ some links
      → contains m links ≡ true
      → DependsOn name s ref

module _ (name : String) (s : AgentConfig) (h : IsCurrent s) where
  depends : (m : String) → IsAffected name s m → DependsOn name s m
  unfolding get_or contains
  depends m itself = same
  depends ref (through {m = m} reached l) = elim (Option-cases (lookup ref s.ref_map)) [
    | inl missing ↦ absurd (ground (arith, h.indexed.exact ref m, missing, l))
    | inr (links, found) ↦
        by_link (depends m reached) (sym (h.in_effect ref) ∙ found)
          (ground (arith, h.indexed.exact ref m, found, l))
  ]

  affected : (m : String) → DependsOn name s m → IsAffected name s m
  unfolding get_or
  affected m same = itself
  affected ref (by_link {m = m} reached found l) =
      through (affected m reached)
        (ground (arith, h.indexed.exact ref m, h.in_effect ref, found, l))

  -- If the maps of references are those of the configurations in effect, `_gather_affected` ends and
  -- marks exactly the configuration itself and those from which a chain of the links in their
  -- contents leads to it, also where links go round in a circle.
  pub gather_affected_dependents :
      (action : String)
      → (seen : Dict String) × (s' : AgentConfig) × (gather_affected name ((name, action) ∷ []) s
          ≡ (ok seen, s'))
        × ((m : String) → (has m seen ≡ true) ↔ DependsOn name s m)
  gather_affected_dependents action =
      let (seen, s', e, exact) = gather_affected_exact name action s in
      (
        seen,
        s',
        e,
        λ m. (λ marked. depends m ((exact m).0 marked), λ d. (exact m).1 (affected m d)),
      )
