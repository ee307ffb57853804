-- ===== src/Tests/Analyzers.antt =====
-- Analyzers that are their names.
use go_metrics.Common.{
  String, true, not, ◌≡◌, ◌≢◌, refl, List, [], ◌∷◌, All, all, ◌==◌, eq_iff, Bool-cases, inl, inr,
}
use go_metrics.Staticlint.{Analyzers, main}
use go_metrics.Staticlint.Laws.{Named, Unique, main-Unique}

abbrev tool : Analyzers String
tool = record {
  name = λ s. s;
  exit_check = "exitcheck";
  printf = "printf";
  shadow = "shadow";
  shift = "shift";
  structtag = "structtag";
  unreachable = "unreachable";
  staticcheck = "SA1000" ∷ "S1001" ∷ "QF1001" ∷ [];
}

differs : (s : String) (l : List String) → all (λ t. not (s == t)) l ≡ true → All (λ t. s ≢ t) l
differs s [] h = tt
differs s (t ∷ l) h = elim (Bool-cases (s == t)) [
  | inl same ↦ cc (rw same at h)
  | inr other ↦ ((λ e. cc ((eq_iff s t).1 e, other)), differs s l (rw other at h))
]

tool-Named : Named tool
tool-Named = record {
  fixed_names = (
    differs "exitcheck" ("printf" ∷ "shadow" ∷ "shift" ∷ "structtag" ∷ "unreachable" ∷ []) refl,
    (
      differs "printf" ("shadow" ∷ "shift" ∷ "structtag" ∷ "unreachable" ∷ []) refl,
      (
        differs "shadow" ("shift" ∷ "structtag" ∷ "unreachable" ∷ []) refl,
        (
          differs "shift" ("structtag" ∷ "unreachable" ∷ []) refl,
          (differs "structtag" ("unreachable" ∷ []) refl, (tt, tt)),
        ),
      ),
    ),
  );
  staticcheck_names = (
    differs "SA1000" ("S1001" ∷ "QF1001" ∷ []) refl,
    (differs "S1001" ("QF1001" ∷ []) refl, (tt, tt)),
  );
  no_clash = (
    differs "exitcheck" ("SA1000" ∷ "S1001" ∷ "QF1001" ∷ []) refl,
    (
      differs "printf" ("SA1000" ∷ "S1001" ∷ "QF1001" ∷ []) refl,
      (
        differs "shadow" ("SA1000" ∷ "S1001" ∷ "QF1001" ∷ []) refl,
        (
          differs "shift" ("SA1000" ∷ "S1001" ∷ "QF1001" ∷ []) refl,
          (
            differs "structtag" ("SA1000" ∷ "S1001" ∷ "QF1001" ∷ []) refl,
            (differs "unreachable" ("SA1000" ∷ "S1001" ∷ "QF1001" ∷ []) refl, tt),
          ),
        ),
      ),
    ),
  );
}

main-Unique_example : Unique tool (main tool)
main-Unique_example = main-Unique tool tool-Named
