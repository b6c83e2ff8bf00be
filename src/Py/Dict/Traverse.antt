-- ===== src/Py/Dict/Traverse.antt =====
-- `for k, v in d.items(): ...` with a body that changes `v` in place and other variables `s`.
use volttron_core.Prelude.{
  String, ◌≡◌, refl, ◌≢◌, false, some, [], ◌∷◌, arith, ◌==◌, inl, inr, Bool-cases, string_eq,
}
use text.Mathlib.TextEquality.{eq_iff}
use volttron_core.Py.Dict.{Dict, Each, lookup, has}

module _ {ℓ κ} {V : Type ℓ} {S : Type κ} where
  unfoldable pub traverse : (String → V → S → V × S) → Dict V → S → Dict V × S
  traverse body [] s = ([], s)
  traverse body ((k, v) ∷ d) s =
      let (v', s') = body k v s in let (d', s'') = traverse body d s' in ((k, v') ∷ d', s'')

  pub has-traverse :
      (k : String) (body : String → V → S → V × S) (d : Dict V) (s : S)
      → has k (traverse body d s).0 ≡ has k d
  unfolding has traverse
  has-traverse k body [] s = refl
  has-traverse k body ((j, v) ∷ d) s = ground (arith, has-traverse k body d (body j v s).1)

module _ {ℓ κ μ} {V : Type ℓ} {S : Type κ} (P : S → Type μ) (k : String)
    (body : String → V → S → V × S) where
  -- What every round but that of `k` keeps is kept by a loop that has no `k`.
  pub traverse_keep :
      ((j : String) (v : V) (s : S) → j ≢ k → P s → P (body j v s).1)
      → (d : Dict V) (s : S) → has k d ≡ false
      → P s
      → P (traverse body d s).1
  unfolding traverse has
  traverse_keep keep [] s h p = p
  traverse_keep keep ((j, v) ∷ d) s h p =
      traverse_keep keep d (body j v s).1 (ground arith)
        (keep j v s (λ q. ground (arith, eq_iff j k)) p)

module _ {ℓ κ μ} {V : Type ℓ} {S : Type κ} (P Q : S → Type μ) (k : String)
    (body : String → V → S → V × S) where
  -- The round of `k` meets a state with `P` and leaves one with `Q`.
  pub traverse_rule {ν} :
      (C : V → Type ν)
      → ((j : String) (v : V) (s : S) → j ≢ k → P s → P (body j v s).1)
      → ((j : String) (v : V) (s : S) → j ≢ k → Q s → Q (body j v s).1)
      → (v : V) → ((s : S) → P s → Q (body k v s).1)
      → (d : Dict V) (s : S) → Each C d
      → lookup k d ≡ some v
      → P s
      → (s' : S) × P s'
        × (lookup k (traverse body d s).0 ≡ some (body k v s').0)
        × Q (traverse body d s).1
  unfolding traverse lookup has
  traverse_rule C keep keep' v visit [] s u e p = cc
  traverse_rule C keep keep' v visit ((j, w) ∷ d) s u e p = elim (Bool-cases (j == k)) [
    | inl here ↦
        let jk : j ≡ k = (eq_iff j k).0 here in
        let wv : w ≡ v = ground arith in
        (
          s,
          p,
          rw (here, jk, wv),
          traverse_keep Q k body keep' d _ (rw jk at u.0) (rw (jk, wv) (visit s p)),
        )
    | inr there ↦
        let (s', p', e', q') =
          traverse_rule C keep keep' v visit d (body j w s).1 u.2 (ground arith)
            (keep j w s (λ q. ground (arith, eq_iff j k)) p) in
        (s', p', rw there e', q')
  ]

module _ {ℓ κ μ} {V : Type ℓ} {S : Type κ} where
  -- What every round keeps is kept by the loop.
  pub traverse_keep_all :
      (P : S → Type μ) (body : String → V → S → V × S)
      → ((j : String) (v : V) (s : S) → P s → P (body j v s).1)
      → (d : Dict V) (s : S) → P s
      → P (traverse body d s).1
  unfolding traverse
  traverse_keep_all P body keep [] s p = p
  traverse_keep_all P body keep ((j, v) ∷ d) s p =
      traverse_keep_all P body keep d (body j v s).1 (keep j v s p)

  pub Each-traverse {ν} :
      (C : V → Type μ) (D : V → Type ν) (body : String → V → S → V × S)
      → ((j : String) (v : V) (s : S) → C v → D (body j v s).0)
      → (d : Dict V) (s : S) → Each C d
      → Each D (traverse body d s).0
  unfolding traverse
  Each-traverse C D body keep [] s h = tt
  Each-traverse C D body keep ((j, v) ∷ d) s h = (
    rw (has-traverse j body d (body j v s).1) h.0,
    keep j v s h.1,
    Each-traverse C D body keep d (body j v s).1 h.2,
  )
