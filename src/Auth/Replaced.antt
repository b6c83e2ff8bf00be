-- ===== src/Auth/Replaced.antt =====
-- `AuthFile.update_by_index` of services/auth/auth_service.py, and the user ids of the entries.
use volttron_core.Prelude.{
  ℕ, zero, suc, ◌≡◌, sym, Bool, false, some, List, [], ◌∷◌, ◌==◌, All, contains, Distinct, arith,
  length, Option-cases, inl, inr, beq_ne,
}
use volttron_core.Py.Exec.{lift, ◌>>=◌}
use volttron_core.Py.Result.{ok, Result-cases}
use volttron_core.Py.Value.{Value, ℤ, value_eq}
use volttron_core.Auth.Fields.{AuthEnv}
use volttron_core.Auth.Entry.{AuthEntry}
use volttron_core.Auth.Entries.{IsBuilt}
use volttron_core.Auth.Indices.{place, replace_at, delete_at, set_entry}
use volttron_core.Auth.Reading.{Contents, read_at}
use volttron_core.Auth.UserIds.{user_ids}
use volttron_core.Auth.Unique.{
  IsUnique, IsClean-read, read-IsClean, write-IsUnique, chosen-IsBuilt, IsClean-with_chosen,
}
use volttron_core.Auth.File.{AuthFile, read, chosen, with_chosen, update_by_index}

contains-replace_at :
    (v : Value) (n : ℕ) (entry : AuthEntry) (es : List AuthEntry)
    → contains v (user_ids es) ≡ false
    → (entry.user_id == v) ≡ false
    → contains v (user_ids (replace_at n entry es)) ≡ false
unfolding replace_at contains
contains-replace_at v n entry [] h other = h
contains-replace_at v zero entry (e ∷ es) h other = ground (arith, h, other)
contains-replace_at v (suc n) entry (e ∷ es) h other =
    ground (arith, h, contains-replace_at v n entry es (ground (arith, h)) other)

value_other : (v w : Value) → (v == w) ≡ false → (w == v) ≡ false
value_other v w h = beq_ne w v λ same. let equal = (value_eq.beq_iff v w).1 (sym same) in cc

replace_at-Distinct :
    (n : ℕ) (entry : AuthEntry) (es : List AuthEntry)
    → contains entry.user_id (user_ids (delete_at n es)) ≡ false
    → Distinct (user_ids es)
    → Distinct (user_ids (replace_at n entry es))
unfolding replace_at delete_at contains
replace_at-Distinct n entry [] free d = d
replace_at-Distinct zero entry (e ∷ es) free (first, d) = (free, d)
replace_at-Distinct (suc n) entry (e ∷ es) free (first, d) = (
  contains-replace_at e.user_id n entry es first
      (value_other e.user_id entry.user_id (ground (arith, free))),
  replace_at-Distinct n entry es (ground (arith, free)) d,
)

module _ (env : AuthEnv) where
  replace_at-IsBuilt :
      (n : ℕ) (entry : AuthEntry) (es : List AuthEntry)
      → IsBuilt env entry
      → All (IsBuilt env) es
      → All (IsBuilt env) (replace_at n entry es)
  unfolding replace_at
  replace_at-IsBuilt n entry [] built all = tt
  replace_at-IsBuilt zero entry (e ∷ es) built (b, all) = (built, all)
  replace_at-IsBuilt (suc n) entry (e ∷ es) built (b, all) =
      (b, replace_at-IsBuilt n entry es built all)

  -- No entry but the one at the index has the user id of the new one.
  abbrev pub IsFree : AuthEntry → ℤ → Bool → AuthFile → Type 0
  IsFree entry index is_allow s =
      (c : Contents) (n : ℕ)
      → read_at env s.readings s.auth_data ≡ ok c
      → place index (length (chosen is_allow c)) ≡ some n
      → contains entry.user_id (user_ids (delete_at n (chosen is_allow c))) ≡ false

  pub update_by_index-IsUnique :
      (entry : AuthEntry) (index : ℤ) (is_allow : Bool) (s : AuthFile)
      → IsBuilt env entry
      → IsFree entry index is_allow s
      → IsUnique env s
      → IsUnique env (update_by_index env entry index is_allow s).1
  unfolding update_by_index read lift ◌>>=◌
  update_by_index-IsUnique entry index is_allow s built free u =
      elim (Result-cases (read_at env s.readings s.auth_data)) [
        | inr (why, e) ↦ rw e ((read-IsClean env).keeps.at s u)
        | inl (c, e) ↦ elim (Option-cases (place index (length (chosen is_allow c)))) [
          | inl absent ↦ rw (e, set_entry, absent) ((read-IsClean env).keeps.at s u)
          | inr (n, there) ↦
              let clean = IsClean-read env s.readings s c u e in
              let es = chosen is_allow c in
              rw (e, set_entry, there)
                ((write-IsUnique env (with_chosen is_allow (replace_at n entry es) c) (
                    IsClean-with_chosen env is_allow (replace_at n entry es) c clean
                      (replace_at-IsBuilt n entry es built (chosen-IsBuilt env is_allow c clean))
                      (replace_at-Distinct n entry es (free c n e there)))).at
                  _ ((read-IsClean env).keeps.at s u))
        ]
      ]
