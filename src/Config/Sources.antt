-- ===== src/Config/Sources.antt =====
-- Where a text of the configuration comes from: flag, environment, file, default, in this order.
use go_metrics.Common.{
  String, ◌≡◌, ◌≢◌, inl, inr, Option, none, some, arith, eq_iff, str_ne, Bool-cases, ◌==◌, ◌⊎◌,
  Option-cases,
}
use go_metrics.Config.{or_default, first, env_text, flag_text}

-- A flag counts if it differs from its default and is not empty.
abbrev pub IsGiven : String → String → Type 0
IsGiven default flag = (flag ≢ default) × (flag ≢ "")

-- `v` comes from the first source that has a value: the flag if it is given, a variable that is not
-- empty, the file, the default.
pub data Chosen (flag default env : String) (json : Option String) (v : String) : Type 0 where
  by_flag : flag ≢ default → flag ≢ "" → v ≡ flag → Chosen flag default env json v
  by_env : ¬ IsGiven default flag → env ≢ "" → v ≡ env → Chosen flag default env json v
  by_file :
      (w : String)
      → ¬ IsGiven default flag
      → env ≡ ""
      → json ≡ some w
      → v ≡ w
      → Chosen flag default env json v
  by_default :
      ¬ IsGiven default flag → env ≡ "" → json ≡ none → v ≡ default → Chosen flag default env json v

IsGiven-cases : (default flag : String) → IsGiven default flag ⊎ ¬ IsGiven default flag
IsGiven-cases default flag = elim (Bool-cases (flag == default)) [
  | inl d ↦ inr (λ g. g.0 ((eq_iff flag default).0 d))
  | inr d ↦ elim (Bool-cases (flag == "")) [
    | inl n ↦ inr (λ g. g.1 ((eq_iff flag "").0 n))
    | inr n ↦ inl (
      (λ p. ground (arith, d, p, eq_iff flag default)),
      λ p. ground (arith, n, p, eq_iff flag ""),
    )
  ]
]

module _ (flag default env : String) (json : Option String) where
  absent_flag : ¬ IsGiven default flag → flag_text default flag ≡ none
  unfolding flag_text
  absent_flag h = elim (Bool-cases (flag == default)) [
    | inl e ↦ rw e
    | inr e ↦ elim (Bool-cases (flag == "")) [
      | inl e' ↦ ground (arith, e, e')
      | inr e' ↦ absurd (
          h (
            (λ p. ground (arith, e, eq_iff flag default, p)),
            λ p. ground (arith, e', eq_iff flag "", p),
          ))
    ]
  ]

  -- The first source that has a value is one of the four.
  pub chosen :
      Chosen flag default env json
        (or_default default (first (flag_text default flag) (env_text env json)))
  unfolding env_text flag_text
  chosen = elim (IsGiven-cases default flag) [
    | inl (d, n) ↦ by_flag d n (rw (str_ne d, str_ne n))
    | inr h ↦ elim (Bool-cases (env == "")) [
      | inr e ↦ by_env h (λ p. ground (arith, e, p, eq_iff env "")) (rw (absent_flag h, e))
      | inl e ↦ elim (Option-cases json) [
        | inr (w, j) ↦ by_file w h ((eq_iff env "").0 e) j (rw (absent_flag h, e, j))
        | inl j ↦ by_default h ((eq_iff env "").0 e) j (rw (absent_flag h, e, j))
      ]
    ]
  ]
