-- ===== src/Staticlint.antt =====
-- cmd/staticlint/main.go: which analyzers the tool runs. Exitcheck has its own one.
pub mod Laws
use go_metrics.Common.{String, Bool, ◌||◌, List, [], ◌∷◌, ◌++◌, if◌then◌else◌}
use go_metrics.Retry.Text.{codes, is_prefix}

-- The analyzers `A` with their names: that of exitcheck.go, those of the passes of
-- golang.org/x/tools, and the list of package staticcheck.
pub record Analyzers (A : Type 0) : Type 0 where
  pub name : A → String
  pub exit_check : A
  pub printf : A
  pub shadow : A
  pub shift : A
  pub structtag : A
  pub unreachable : A
  pub staticcheck : List A

module _ {A : Type 0} (x : Analyzers A) where
  -- len(name) >= 2 && name[:2] == class
  unfoldable pub has_class : String → A → Bool
  unfolding is_prefix codes
  has_class class a = is_prefix (codes class) (codes (x.name a))

  -- A loop that appends the analyzers that pass a test.
  abbrev pub append_if : (A → Bool) → List A → List A
  append_if test [] = []
  append_if test (a ∷ l) = let rest = append_if test l in if test a then a ∷ rest else rest

  abbrev pub fixed : List A
  fixed = x.exit_check ∷ x.printf ∷ x.shadow ∷ x.shift ∷ x.structtag ∷ x.unreachable ∷ []

  -- What main gives to multichecker.Main.
  unfoldable pub main : List A
  unfolding has_class
  main =
      fixed
      ++ (append_if (has_class "SA") x.staticcheck
          ++ append_if (λ a. has_class "S1" a || has_class "ST" a) x.staticcheck)
