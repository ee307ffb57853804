-- ===== src/GoMap.antt =====
-- Go's `map[string]V` as an association list with one entry for a key, and `range` over it in an
-- order that the runtime chooses.
pub mod Laws
use go_metrics.Common.{String, ◌≡◌, Option, none, some, List, [], ◌∷◌, Permᴰ, ◌==◌, if◌then◌else◌}

abbrev pub GoMap : Type 0 → Type 0
GoMap V = List (String × V)

module _ {V : Type 0} where
  -- v, ok := m[k]
  unfoldable pub index : String → GoMap V → Option V
  index k [] = none
  index k ((j, v) ∷ m) = if j == k then some v else index k m

  -- m[k] = v
  unfoldable pub assign : String → V → GoMap V → GoMap V
  assign k v [] = (k, v) ∷ []
  assign k v ((j, w) ∷ m) = if j == k then (j, v) ∷ m else (j, w) ∷ assign k v m

  -- No key has two entries.
  abbrev pub IsDistinct : GoMap V → Type 0
  IsDistinct [] = Unit
  IsDistinct ((k, v) ∷ m) = (index k m ≡ none) × IsDistinct m

  -- The values, in the order of the entries.
  abbrev pub values : GoMap V → List V
  values [] = []
  values ((k, v) ∷ m) = v ∷ values m

-- The order in which `range` visits entries is not specified: some rearrangement of them.
pub record Order (A : Type 0) : Type 0 where
  pub visit : List A → List A
  pub visit_perm : (l : List A) → Permᴰ l (visit l)

module _ {V : Type 0} where
  abbrev assign_all : GoMap V → GoMap V → GoMap V
  assign_all [] acc = acc
  assign_all ((k, v) ∷ m) acc = assign_all m (assign k v acc)

  -- result := make(map[string]V); for k, v := range m { result[k] = v }
  unfoldable pub copy_map : Order (String × V) → GoMap V → GoMap V
  copy_map order m = assign_all (order.visit m) []
