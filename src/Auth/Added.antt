-- ===== src/Auth/Added.antt =====
-- `AuthFile.add` of services/auth/auth_service.py, without `overwrite`, and the user ids of the
-- entries.
use volttron_core.Prelude.{
  ℕ, suc, ◌≡◌, refl, sym, ◌∙◌, ap, Bool, false, ◌&&◌, none, List, [], ◌∷◌, ◌++◌, ◌==◌,
  All-append_one, contains, Distinct-append_one, beq_ne, Bool-cases, Option-cases, inl, inr,
}
use volttron_core.Py.Exec.{◌>>=◌}
use volttron_core.Py.Keeps.{Keeps, Keeps-pure, Keeps-raise, Keeps-if}
use volttron_core.Py.Result.{Exception, ok, raised, Result-cases, auth_entry_exists}
use volttron_core.Py.Value.{Value, value_eq}
use volttron_core.Auth.Fields.{AuthEnv}
use volttron_core.Auth.Entry.{AuthEntry}
use volttron_core.Auth.Entries.{IsBuilt}
use volttron_core.Auth.Reading.{Contents, read_at}
use volttron_core.Auth.UserIds.{user_ids, or_parts, read_at-written_reading}
use volttron_core.Auth.Unique.{
  IsClean, IsUnique, IsClean-read, read-IsClean, chosen-IsBuilt, IsClean-with_chosen,
}
use volttron_core.Auth.File.{
  AuthFile, read, write, written, chosen, with_chosen, is_taken, find_taken, refuse_taken,
  check_if_exists, append_entry, after_check, add,
}

module _ (env : AuthEnv) where
  other_sym : (v w : Value) → (v == w) ≡ false → (w == v) ≡ false
  other_sym v w h = beq_ne w v λ same. let equal = (value_eq.beq_iff v w).1 (sym same) in cc

  connection_taken : AuthEntry → AuthEntry → Bool
  connection_taken entry e =
      e.domain == entry.domain
      && (e.address == entry.address
          && (e.mechanism == entry.mechanism && e.credentials == entry.credentials))

  is_taken-other :
      (entry e : AuthEntry) → is_taken entry e ≡ false → (e.user_id == entry.user_id) ≡ false
  unfolding is_taken connection_taken
  is_taken-other entry e h =
      other_sym entry.user_id e.user_id
        (or_parts (entry.user_id == e.user_id) (connection_taken entry e) h).0

  find_taken-absent :
      (entry : AuthEntry) (es : List AuthEntry) (index : ℕ)
      → find_taken entry es index ≡ none
      → contains entry.user_id (user_ids es) ≡ false
  unfolding find_taken contains
  find_taken-absent entry [] index h = refl
  find_taken-absent entry (e ∷ es) index h = elim (Bool-cases (is_taken entry e)) [
    | inl taken ↦ absurd (cc (rw taken at h))
    | inr free ↦
        rw (is_taken-other entry e free) (find_taken-absent entry es (suc index) (rw free at h))
  ]

  user_ids-append :
      (es : List AuthEntry) (e : AuthEntry)
      → user_ids (es ++ e ∷ []) ≡ user_ids es ++ e.user_id ∷ []
  user_ids-append [] e = refl
  user_ids-append (f ∷ es) e = ap (λ ids. f.user_id ∷ ids) (user_ids-append es e)

  IsClean-append :
      (entry : AuthEntry) (is_allow : Bool) (c : Contents)
      → IsBuilt env entry
      → IsClean env c
      → find_taken entry (chosen is_allow c) 0 ≡ none
      → IsClean env (with_chosen is_allow (chosen is_allow c ++ entry ∷ []) c)
  IsClean-append entry is_allow c built clean free =
      IsClean-with_chosen env is_allow (chosen is_allow c ++ entry ∷ []) c clean
        (All-append_one (IsBuilt env) (chosen is_allow c) entry
          (chosen-IsBuilt env is_allow c clean) built)
        (λ distinct. rw (user_ids-append (chosen is_allow c) entry) (
          Distinct-append_one entry.user_id (user_ids (chosen is_allow c))
            (find_taken-absent entry (chosen is_allow c) 0 free) distinct))

  after_raised-IsUnique :
      (entry : AuthEntry) (no_error is_allow : Bool) (why : Exception)
      → Keeps (IsUnique env) (after_check env entry false no_error is_allow (raised why))
  unfolding after_check
  after_raised-IsUnique entry no_error is_allow (auth_entry_exists indices) =
      Keeps-if no_error _ _ (Keeps-pure tt) (Keeps-raise _)
  after_raised-IsUnique entry no_error is_allow _ = Keeps-raise _

  -- The entry is appended to what the file still holds.
  append_entry-IsUnique :
      (entry : AuthEntry) (is_allow : Bool) (s : AuthFile) (c : Contents) (n : ℕ)
      → IsBuilt env entry
      → IsUnique env s
      → read_at env n s.auth_data ≡ ok c
      → find_taken entry (chosen is_allow c) 0 ≡ none
      → IsUnique env (append_entry env entry is_allow s).1
  unfolding append_entry read write ◌>>=◌
  append_entry-IsUnique entry is_allow s c n built u e free =
      let clean = IsClean-read env n s c u e in
      let again : read_at env s.readings (written u.contents) ≡ ok c =
        read_at-written_reading env s.readings n u.contents u.clean.allow u.clean.deny
        ∙ (rw u.is at e) in
      rw (u.is, again)
        (record {
          contents = _;
          is = refl;
          clean = IsClean-append entry is_allow c built clean free;
        })

  -- What the check has found decides what follows.
  pub add-IsUnique :
      (entry : AuthEntry) (no_error is_allow : Bool)
      → IsBuilt env entry
      → Keeps (IsUnique env) (add env entry false no_error is_allow)
  unfolding add check_if_exists refuse_taken read ◌>>=◌
  add-IsUnique entry no_error is_allow built = record {
    at = λ s u.
        let next = (read-IsClean env).keeps.at s u in
        elim (Result-cases (read_at env s.readings s.auth_data)) [
          | inr (why, e) ↦ rw e ((after_raised-IsUnique entry no_error is_allow why).at _ next)
          | inl (c, e) ↦ elim (Option-cases (find_taken entry (chosen is_allow c) 0)) [
            | inr (index, taken) ↦
                rw (e, taken)
                  ((after_raised-IsUnique entry no_error is_allow
                      (auth_entry_exists (index ∷ []))).at
                    _ next)
            | inl free ↦
                rw (e, free) (append_entry-IsUnique entry is_allow _ c s.readings built next e free)
          ]
        ];
  }
