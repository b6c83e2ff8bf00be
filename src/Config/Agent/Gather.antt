-- ===== src/Config/Agent/Gather.antt =====
-- A configuration with the contents of its links in their places, and the configurations that link
-- to one.
use volttron_core.Prelude.{
  ℕ, zero, suc, ◌+◌, String, none, some, List, [], ◌∷◌, ◌++◌, length, if◌then◌else◌,
}
use volttron_core.Py.Dict.{Dict, lookup, get_or, has, insert}
use volttron_core.Py.Exec.{pure, raise, gets, modify, ◌>>=◌, ◌>>◌}
use volttron_core.Py.Result.{Result, ok, raised, key_error, error, ◌>>=◌ as ◌>=>◌}
use volttron_core.Py.Value.{
  Value, Items, Fields, null, str, list, dict, nil, cons, end, field, is_null,
}
use volttron_core.Config.Links.{check_for_config_link}
use volttron_core.Config.Agent.{
  AgentConfig, Step, Gathering, Gathered, Object, Objects, Members, atom, object_of, list_of,
  dict_of, none_left, object, no_more, member,
}

abbrev pub Visit {ℓ} : Type ℓ → Type ℓ
Visit A = Gathering → Result (A × Gathering)

-- `self._store.get(name)`, else that of the defaults
unfoldable pub contents_of : String → AgentConfig → Value
contents_of name s = elim (lookup name s.store) [
  | none ↦ get_or name s.default_store null
  | some null ↦ get_or name s.default_store null
  | some contents ↦ contents
]

module _ (child : String → Visit Object) where
  unfoldable pub process_text : String → Visit Object
  process_text text gathered = elim (check_for_config_link text) [
    | none ↦ ok (atom (str text), gathered)
    | some name ↦ child name gathered
  ]

  -- `_process_links`: the object with its links replaced
  unfoldable mutual
    pub process_value : Value → Visit Object
    process_value (str text) gathered = process_text text gathered
    process_value (list items) gathered =
        process_items items gathered >=> λ (items', gathered'). ok (list_of items', gathered')
    process_value (dict fields) gathered =
        process_fields fields gathered >=> λ (fields', gathered'). ok (dict_of fields', gathered')
    process_value v gathered = ok (atom v, gathered)

    pub process_items : Items → Visit Objects
    process_items nil gathered = ok (none_left, gathered)
    process_items (cons v items) gathered = process_value v gathered >=> λ (v', gathered').
        process_items items gathered' >=> λ (items', gathered''). ok (object v' items', gathered'')

    pub process_fields : Fields → Visit Members
    process_fields end gathered = ok (no_more, gathered)
    process_fields (field k v fields) gathered = process_value v gathered >=> λ (v', gathered').
        process_fields fields gathered' >=> λ (fields', gathered'').
        ok (member k v' fields', gathered'')

  -- A text that is a configuration of its own is no link.
  unfoldable pub process_links : Value → Visit Object
  process_links (str text) gathered = ok (atom (str text), gathered)
  process_links v gathered = process_value v gathered

-- `_gather_child_configs`, at most so many one in another: an object that is there already, also one
-- that is being gathered, is given back as it is.
unfoldable pub gather_child_configs : ℕ → AgentConfig → String → Visit Object
gather_child_configs zero s name gathered = raised (error "out of fuel")
gather_child_configs (suc n) s name gathered = elim (lookup name gathered) [
  | some found ↦ ok (object_of name, gathered)
  | none ↦
      process_links (gather_child_configs n s) (contents_of name s) (insert name none gathered)
      >=> λ (contents, gathered'). ok (object_of name, insert name (some contents) gathered')
]

-- `_gather_config`; each call in another but the last is for a configuration that is there
unfoldable pub gather_config : String → AgentConfig → Result Gathered
gather_config name s =
    if is_null (contents_of name s)
    then raised key_error
    else gather_child_configs (suc (suc (length s.store + length s.default_store))) s name []

module _ (visit : String → Dict String → Step (Dict String)) where
  -- The loop of `_gather_affected`.
  unfoldable pub gather_referrers : List String → Dict String → Step (Dict String)
  gather_referrers [] seen = pure seen
  gather_referrers (ref ∷ refs) seen =
      if has ref seen
      then gather_referrers refs seen
      else (do seen' ← visit ref (insert ref "UPDATE" seen); gather_referrers refs seen')

-- `_gather_affected`, at most so many one in another; reading a `defaultdict` makes the entry
unfoldable pub gather_affected_within : ℕ → String → Dict String → Step (Dict String)
gather_affected_within zero name seen = raise (error "out of fuel")
gather_affected_within (suc n) name seen = do
  refs ← gets (λ s. get_or name s.reverse_ref_map [])
  modify (λ s. record s { reverse_ref_map = insert name refs s.reverse_ref_map })
  gather_referrers (gather_affected_within n) refs seen

-- All names in the sets of references.
unfoldable pub referrers : Dict (List String) → List String
referrers [] = []
referrers ((ref, names) ∷ reverse) = names ++ referrers reverse

unfoldable pub gather_affected : String → Dict String → Step (Dict String)
gather_affected name seen = do
  names ← gets (λ s. referrers s.reverse_ref_map)
  gather_affected_within (suc (length names)) name seen
