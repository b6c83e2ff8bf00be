-- ===== src/Auth/ReadBack.antt =====
-- `AuthFile.read` and `AuthFile._write` of services/auth/auth_service.py: what is read of a file,
-- and of one that was written.
use volttron_core.Prelude.{ℕ, suc, String, ◌≡◌, refl, List, [], ◌∷◌, All}
use volttron_core.Py.Dict.{Dict}
use volttron_core.Py.Result.{Result, ok, raised, type_error, auth_entry_invalid, bind-eq-ok}
use volttron_core.Py.Value.{Value, dict, to_fields, of_fields}
use volttron_core.Auth.Fields.{AuthEnv}
use volttron_core.Auth.Built.{of-to_fields}
use volttron_core.Auth.Entry.{AuthEntry, vars}
use volttron_core.Auth.Entries.{IsBuilt, IsListField, new_entry-IsBuilt}
use volttron_core.Auth.Vars.{new_entry-vars, new_entry-vars_same}
use volttron_core.Auth.Reading.{entry_of, keep_entry, get_entries}
use volttron_core.Auth.File.{entry_values}

-- What does not depend on the roles and the capabilities of an entry.
abbrev pub Steady : (AuthEntry → Type 0) → Type 0
Steady P =
    (e : AuthEntry) (roles : Value) (capabilities : Dict Value)
    → P e
    → P (record e { roles = roles; capabilities = capabilities })

module _ (env : AuthEnv) where
  -- Every field of the entry is as the constructor makes it.
  abbrev pub IsWhole : AuthEntry → Type 0
  IsWhole e = IsBuilt env e × IsListField env e.roles

  pub IsBuilt-Steady : Steady (IsBuilt env)
  IsBuilt-Steady e roles capabilities b = record {
    domain = b.domain;
    address = b.address;
    credentials = b.credentials;
    comments = b.comments;
    groups = b.groups;
    valid = b.valid;
    named = b.named;
  }

  -- What an entry of the file gives, if it is not left out.
  keep_entry_parts {κ} :
      (Q : List AuthEntry → Type κ) (made : Result AuthEntry) (rest es : List AuthEntry)
      → keep_entry made rest ≡ ok es
      → ((e : AuthEntry) → made ≡ ok e → Q (e ∷ rest))
      → Q rest
      → Q es
  unfolding keep_entry
  keep_entry_parts Q (ok e) rest es h kept dropped =
      let same : e ∷ rest ≡ es = cc in rw (← same) (kept e refl)
  keep_entry_parts Q (raised type_error) rest es h kept dropped =
      let same : rest ≡ es = cc in rw (← same) dropped
  keep_entry_parts Q (raised auth_entry_invalid) rest es h kept dropped =
      let same : rest ≡ es = cc in rw (← same) dropped
  keep_entry_parts Q (raised _) rest es h kept dropped = cc

  -- What is read of an entry and of those after it.
  pub get_entries_parts {κ μ} :
      (R : List AuthEntry → Type κ) (Q : List AuthEntry → Type μ) (n i : ℕ) (v : Value)
      (vs : List Value) (es : List AuthEntry)
      → get_entries env n i (v ∷ vs) ≡ ok es
      → ((rest : List AuthEntry) → get_entries env n (suc i) vs ≡ ok rest → R rest)
      → ((rest : List AuthEntry) (e : AuthEntry)
          → R rest
          → entry_of env (env.uuid n i) v ≡ ok e
          → Q (e ∷ rest))
      → ((rest : List AuthEntry) → R rest → Q rest)
      → Q es
  unfolding get_entries
  get_entries_parts R Q n i v vs es h more kept dropped =
      let (rest, r, k) =
        bind-eq-ok (get_entries env n (suc i) vs) (keep_entry (entry_of env (env.uuid n i) v)) es
          h in
      keep_entry_parts Q (entry_of env (env.uuid n i) v) rest es k
        (λ e made. kept rest e (more rest r) made) (dropped rest (more rest r))

  pub entry_of-IsBuilt :
      (fresh : String) (v : Value) (e : AuthEntry) → entry_of env fresh v ≡ ok e → IsBuilt env e
  unfolding entry_of
  entry_of-IsBuilt fresh (dict fields) e h = new_entry-IsBuilt env fresh (of_fields fields) e h
  entry_of-IsBuilt fresh _ e h = cc

  pub get_entries-IsBuilt :
      (n i : ℕ) (vs : List Value) (es : List AuthEntry)
      → get_entries env n i vs ≡ ok es
      → All (IsBuilt env) es
  unfolding get_entries
  get_entries-IsBuilt n i [] es h = let same : [] ≡ es = cc in rw (← same) tt
  get_entries-IsBuilt n i (v ∷ vs) es h =
      get_entries_parts (All (IsBuilt env)) (All (IsBuilt env)) n i v vs es h
        (get_entries-IsBuilt n (suc i) vs)
        (λ rest e all made. (entry_of-IsBuilt (env.uuid n i) v e made, all)) (λ rest all. all)

  pub entry_of-vars :
      (fresh : String) (e read : AuthEntry)
      → IsBuilt env e
      → entry_of env fresh (dict (to_fields (vars e))) ≡ ok read
      → read ≡ record e { roles = read.roles }
  unfolding entry_of
  entry_of-vars fresh e read built h =
      new_entry-vars env fresh e read built (rw (of-to_fields (vars e)) at h)

  -- What holds of the entries written holds of those that are read of them.
  pub get_entries-entry_values :
      (P : AuthEntry → Type 0)
      → Steady P
      → (n i : ℕ) (written read : List AuthEntry) → All (IsBuilt env) written
      → All P written
      → get_entries env n i (entry_values written) ≡ ok read
      → All P read
  unfolding get_entries entry_values
  get_entries-entry_values P steady n i [] read b p h = let same : [] ≡ read = cc in rw (← same) tt
  get_entries-entry_values P steady n i (e ∷ es) read (built, b) (p, ps) h =
      get_entries_parts (All P) (All P) n i (dict (to_fields (vars e))) (entry_values es) read h
        (λ rest r. get_entries-entry_values P steady n (suc i) es rest b ps r)
        (λ rest r all made. (
          rw (entry_of-vars (env.uuid n i) e r built made) (steady e r.roles e.capabilities p),
          all,
        ))
        (λ rest all. all)

  entry_of-vars_same :
      (fresh : String) (e : AuthEntry)
      → IsWhole e
      → entry_of env fresh (dict (to_fields (vars e))) ≡ ok e
  unfolding entry_of
  entry_of-vars_same fresh e (built, roles) =
      rw (of-to_fields (vars e)) (new_entry-vars_same env fresh e built roles)

  pub get_entries-entry_values_same :
      (n i : ℕ) (es : List AuthEntry)
      → All IsWhole es
      → get_entries env n i (entry_values es) ≡ ok es
  unfolding get_entries entry_values keep_entry
  get_entries-entry_values_same n i [] w = refl
  get_entries-entry_values_same n i (e ∷ es) (whole, w) =
      rw (get_entries-entry_values_same n (suc i) es w, entry_of-vars_same (env.uuid n i) e whole)
        refl
