-- ===== src/Config/Startup.antt =====
-- `process_store`: the parsed configurations of a store that was read from its file.
use mathlib.Core.Path.{subst, sym}
use text.Mathlib.TextEquality.{eq_iff}
use volttron_core.Prelude.{
  String, ◌≡◌, refl, Bool, true, false, Option, none, some, [], ◌∷◌, arith, string_eq,
  if◌then◌else◌, Bool-cases, inl, inr, beq_refl, All,
}
use volttron_core.Py.Dict.{Dict, Each, lookup, has, insert, lookup-insert}
use volttron_core.Py.Result.{
  Result, ok, raised, key_error, value_error, runtime_error, error, ◌>>=◌, bind-eq-ok,
}
use volttron_core.Py.Text.{lower}
use volttron_core.Py.Value.{Value}
use volttron_core.Config.Links.{check_for_recursion}
use volttron_core.Config.Store.{AgentStore, Disk, DiskEntry, Env}
use volttron_core.Config.Service.{process_raw_config}
use volttron_core.Config.Tidy.{IsTidy, empty-IsTidy}

-- What the loop has gathered: `results` and `name_map`.
pub record Gathered : Type 0 where
  pub results : Dict Value
  pub names : Dict String

abbrev pub nothing : Gathered
nothing = record { results = []; names = [] }

-- `del store[config_name]` in the loop over `store.items()`: where the item is gone already the
-- deletion raises `KeyError`, else the loop raises `RuntimeError`, as CPython does when it goes on
-- after the dictionary has changed its size.
unfoldable pub drop_config {ℓ} : {A : Type ℓ} → Bool → Result A
drop_config gone = if gone then raised key_error else raised runtime_error

unfoldable pub not_recursive : Option Bool → Value → Result Value
not_recursive none v = raised (error "out of fuel")
not_recursive (some found) v = if found then raised value_error else ok v

-- One round of the loop, once the configuration has been processed.
unfoldable pub gather : String → Result Value → Gathered → Result Gathered
unfolding drop_config
gather name (ok v) g =
    if has (lower name) g.names
    then drop_config false
    else ok (record { results = insert name v g.results; names = insert (lower name) name g.names })
gather name (raised value_error) g = drop_config (has (lower name) g.names)
gather name (raised e) g = raised e

module _ (env : Env) where
  unfoldable pub process_config : String → DiskEntry → Dict Value → Result Value
  process_config name entry results = do
    v ← process_raw_config env entry.contents entry.kind
    not_recursive (check_for_recursion name v results) v

  unfoldable pub process_entries : Disk → Gathered → Result Gathered
  process_entries [] g = ok g
  process_entries ((name, entry) ∷ entries) g = do
    g' ← gather name (process_config name entry g.results) g
    process_entries entries g'

  -- `process_store`
  unfoldable pub process_store : Disk → Result Gathered
  process_store disk = process_entries disk nothing

  -- The store of an agent after `_setup`.
  unfoldable pub load_store : Disk → Result AgentStore
  load_store disk = do
    g ← process_store disk
    ok (record { configs = g.results; store = disk; name_map = g.names })

gather-eq-ok :
    (name : String) (r : Result Value) (g g' : Gathered)
    → gather name r g ≡ ok g'
    → (v : Value) × (r ≡ ok v)
      × (has (lower name) g.names ≡ false)
      × (g'
          ≡ record { results = insert name v g.results; names = insert (lower name) name g.names })
unfolding gather drop_config
gather-eq-ok name (ok v) g g' e = elim (Bool-cases (has (lower name) g.names)) [
  | inl old ↦ absurd (ground (arith, e, old))
  | inr new ↦ (v, refl, new, ground (arith, e, new))
]
gather-eq-ok name (raised value_error) g g' e = ground arith
gather-eq-ok name (raised _) g g' e = cc

abbrev loaded : Gathered → Disk → AgentStore
loaded g disk = record { configs = g.results; store = disk; name_map = g.names }

loaded-IsTidy :
    (name : String) (v : Value) (g : Gathered) (disk : Disk)
    → IsTidy (loaded g disk)
    → has name disk ≡ true
    → has (lower name) g.names ≡ false
    → IsTidy (record {
      configs = insert name v g.results;
      store = disk;
      name_map = insert (lower name) name g.names;
    })
unfolding has
loaded-IsTidy name v g disk t here new = record {
  named = λ k n h. ground (
    arith,
    h,
    lookup-insert (lower name) k name g.names,
    eq_iff (lower name) k,
    t.named k n,
    lookup-insert name n v g.results,
    eq_iff name n,
  );
  known = λ n h. ground (
    arith,
    h,
    lookup-insert (lower name) (lower n) name g.names,
    eq_iff (lower name) (lower n),
    t.known n,
    lookup-insert name n v g.results,
    eq_iff name n,
  );
}

module _ (env : Env) where
  abbrev pub Parses : String × DiskEntry → Type 0
  Parses (name, entry) = (v : Value) × (process_raw_config env entry.contents entry.kind ≡ ok v)

  entries_loaded :
      (entries disk : Disk) (g g' : Gathered)
      → All (λ p. has p.0 disk ≡ true) entries
      → IsTidy (loaded g disk)
      → process_entries env entries g ≡ ok g'
      → IsTidy (loaded g' disk) × All Parses entries
  unfolding process_entries process_config
  entries_loaded [] disk g g' all t e =
      let q : g ≡ g' = cc in (subst (λ x. IsTidy (loaded x disk)) q t, tt)
  entries_loaded ((name, entry) ∷ entries) disk g g' (here, all) t e =
      let (h, gathered, rest) =
        bind-eq-ok (gather name (process_config env name entry g.results) g) _ g' e in
      let (v, processed, new, q) = gather-eq-ok name _ g h gathered in
      let (raw, parsed, _) =
        bind-eq-ok (process_raw_config env entry.contents entry.kind) _ v processed in
      let t' =
        subst (λ x. IsTidy (loaded x disk)) (sym q) (loaded-IsTidy name v g disk t here new) in
      let (done, parses) = entries_loaded entries disk h g' all t' rest in
      (done, ((raw, parsed), parses))

  All-there :
      (entries disk : Disk)
      → Each (λ _. Unit {0}) entries
      → ((name : String) → has name entries ≡ true → has name disk ≡ true)
      → All (λ p. has p.0 disk ≡ true) entries
  unfolding has lookup
  All-there [] disk h sub = tt
  All-there ((name, entry) ∷ entries) disk h sub = (
    sub name (ground (arith, beq_refl name)),
    All-there entries disk h.2 λ other m. sub other (ground (arith, m)),
  )

  -- A store that was read from its file is in use only if every entry of it parses, and then it is
  -- in order. So one entry that does not parse makes `_setup` raise: the code that means to drop it
  -- deletes from the dictionary that the loop walks.
  pub load_store_sound :
      (disk : Disk) (agent : AgentStore)
      → Each (λ _. Unit {0}) disk
      → load_store env disk ≡ ok agent
      → IsTidy agent × (agent.store ≡ disk) × All Parses disk
  unfolding load_store process_store
  load_store_sound disk agent distinct e =
      let (g, processed, made) = bind-eq-ok (process_entries env disk nothing) _ agent e in
      let (t, parses) =
        entries_loaded disk disk nothing g (All-there disk disk distinct λ n m. m)
          (empty-IsTidy disk) processed in
      let q : loaded g disk ≡ agent = cc in (subst IsTidy q t, cc, parses)
