-- ===== src/Storage/Db/Table.antt =====
-- The table of migrations/001_create_metrics_table.sql, and the two statements of database.go that
-- write to it. UNIQUE(name, type) makes it a function of name and type. `created_at` is left out: it
-- only orders the rows of a SELECT.
use go_metrics.Common.{
  ℕ, ◌^◌, String, Bool, Option, none, some, List, [], ◌∷◌, length, leb, not, add64, ◌==◌,
  if◌then◌else◌,
}
use go_metrics.Retry.Text.{codes}

-- The columns `value` and `delta`, which may be NULL.
pub record Row (F : Type 0) : Type 0 where
  pub value : Option F
  pub delta : Option ℕ

abbrev pub Table : Type 0 → Type 0
Table F = String → String → Option (Row F)

-- INSERT … ON CONFLICT (name, type) DO UPDATE …, of a gauge and of a counter.
pub data Statement (F : Type 0) : Type 0 where
  upsert_gauge : String → F → Statement F
  upsert_counter : String → ℕ → Statement F

abbrev is_negative : ℕ → Bool
is_negative n = leb (2 ^ 63) n

abbrev same_sign : ℕ → ℕ → Bool
same_sign a b = if is_negative a then is_negative b else not (is_negative b)

-- The sum of two BIGINTs, an error where it is out of range.
unfoldable pub add_bigint : ℕ → ℕ → Option ℕ
add_bigint a b =
    if same_sign a b
    then if same_sign a (add64 a b) then some (add64 a b) else none
    else some (add64 a b)

-- VARCHAR(255). A longer name is refused; one that is longer only by blanks at its end, which
-- PostgreSQL cuts, is left out of the model.
unfoldable pub fits_name : String → Bool
fits_name name = leb (length (codes name)) 255

module _ {F : Type 0} where
  abbrev pub put : String → String → Row F → Table F → Table F
  put name type row t = λ n k. if name == n then if type == k then some row else t n k else t n k

  abbrev pub gauge_row : F → Option (Row F) → Row F
  gauge_row v none = record { value = some v; delta = none }
  gauge_row v (some r) = record r { value = some v }

  -- NULL + d is NULL.
  abbrev pub counter_row : ℕ → Option (Row F) → Option (Row F)
  counter_row d none = some (record { value = none; delta = some d })
  counter_row d (some r) = elim r.delta [
    | none ↦ some r
    | some c ↦ elim (add_bigint c d) [ none ↦ none | some s ↦ some (record r { delta = some s }) ]
  ]

  -- What a statement makes of the table, `none` where PostgreSQL refuses it.
  unfoldable pub effect : Statement F → Table F → Option (Table F)
  effect (upsert_gauge name v) t =
      if fits_name name then some (put name "gauge" (gauge_row v (t name "gauge")) t) else none
  effect (upsert_counter name d) t =
      if fits_name name
      then elim (counter_row d (t name "counter")) [
        | none ↦ none
        | some r ↦ some (put name "counter" r t)
      ]
      else none

  abbrev pub effect_all : List (Statement F) → Table F → Option (Table F)
  effect_all [] t = some t
  effect_all (s ∷ ss) t = elim (effect s t) [ none ↦ none | some u ↦ effect_all ss u ]
