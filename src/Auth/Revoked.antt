-- ===== src/Auth/Revoked.antt =====
-- `AuthFile.remove_by_credentials` and `AuthFile.set_roles` of services/auth/auth_service.py: what
-- is read of the file afterwards.
use volttron_core.Prelude.{
  ℕ, ◌≡◌, ◌≢◌, Bool, true, false, List, [], ◌∷◌, ◌==◌, All, Bool-cases, inl, inr,
}
use volttron_core.Py.Exec.{◌>>=◌}
use volttron_core.Py.Result.{ok, Result-cases}
use volttron_core.Py.Value.{Value, value_eq}
use volttron_core.Auth.Fields.{AuthEnv}
use volttron_core.Auth.Entry.{AuthEntry}
use volttron_core.Auth.Entries.{IsBuilt}
use volttron_core.Auth.ReadBack.{Steady}
use volttron_core.Auth.Reading.{Contents, read_at}
use volttron_core.Auth.Rereading.{read_at-IsBuilt, read_at-written_Steady}
use volttron_core.Auth.File.{
  AuthFile, read, chosen, with_chosen, other_credentials, written, write, remove_by_credentials,
}

module _ (env : AuthEnv) (credentials : Value) where
  -- The entry has other credentials.
  abbrev pub IsOther : AuthEntry → Type 0
  IsOther e = e.credentials ≢ credentials

  IsOther-Steady : Steady IsOther
  IsOther-Steady e roles capabilities p = p

  pub All-other_credentials :
      (P : AuthEntry → Type 0) (es : List AuthEntry)
      → All P es
      → All P (other_credentials credentials es)
  unfolding other_credentials
  All-other_credentials P [] p = tt
  All-other_credentials P (e ∷ es) (p, ps) = elim (Bool-cases (e.credentials == credentials)) [
    | inl same ↦ rw same (All-other_credentials P es ps)
    | inr other ↦ rw other (p, All-other_credentials P es ps)
  ]

  other_credentials-IsOther : (es : List AuthEntry) → All IsOther (other_credentials credentials es)
  unfolding other_credentials
  other_credentials-IsOther [] = tt
  other_credentials-IsOther (e ∷ es) = elim (Bool-cases (e.credentials == credentials)) [
    | inl same ↦ rw same (other_credentials-IsOther es)
    | inr other ↦ rw other (
      (λ q. let equal = (value_eq.beq_iff e.credentials credentials).1 q in cc),
      other_credentials-IsOther es,
    )
  ]

  All-any : (es : List AuthEntry) → All (λ _. Unit {0}) es
  All-any [] = tt
  All-any (e ∷ es) = (tt, All-any es)

  removed :
      (n : ℕ) (is_allow : Bool) (c after : Contents)
      → All (IsBuilt env) c.allow × All (IsBuilt env) c.deny
      → read_at env n
          (written (with_chosen is_allow (other_credentials credentials (chosen is_allow c)) c))
        ≡ ok after
      → All IsOther (chosen is_allow after)
  unfolding chosen with_chosen
  removed n true c after (allow, deny) r =
      let left = record c { allow = other_credentials credentials c.allow } in
      ((read_at-written_Steady env n IsOther (λ _. Unit {0}) IsOther-Steady (λ _ _ _ p. p) left
          (All-other_credentials (IsBuilt env) c.allow allow) deny
          (other_credentials-IsOther c.allow) (All-any c.deny)).value
        after r).0
  removed n false c after (allow, deny) r =
      let left = record c { deny = other_credentials credentials c.deny } in
      ((read_at-written_Steady env n (λ _. Unit {0}) IsOther (λ _ _ _ p. p) IsOther-Steady left
          allow (All-other_credentials (IsBuilt env) c.deny deny) (All-any c.allow)
          (other_credentials-IsOther c.deny)).value
        after r).1

  -- Once remove_by_credentials has returned, no entry of the list that is read of the file has
  -- these credentials, whatever the file was before, groups and roles included.
  pub remove_by_credentials-IsOther :
      (is_allow : Bool) (s : AuthFile)
      → (remove_by_credentials env credentials is_allow s).0 ≡ ok tt
      → (n : ℕ) (after : Contents)
      → read_at env n (remove_by_credentials env credentials is_allow s).1.auth_data ≡ ok after
      → All IsOther (chosen is_allow after)
  unfolding remove_by_credentials read write ◌>>=◌
  remove_by_credentials-IsOther is_allow s h n after r =
      elim (Result-cases (read_at env s.readings s.auth_data)) [
        | inl (c, e) ↦
            removed n is_allow c after ((read_at-IsBuilt env s.readings s.auth_data).value c e)
              (rw e at r)
        | inr (why, e) ↦ absurd (cc (rw e at h))
      ]
