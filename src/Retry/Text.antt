-- ===== src/Retry/Text.antt =====
-- strings.ToLower and strings.Contains, on code points.
use Prim.Native.Char.{code}
use go_metrics.Common.{
  ℕ, ◌+◌, String, Bool, true, false, ◌&&◌, List, [], ◌∷◌, leb, eqb, if◌then◌else◌,
}

-- The two characters past ASCII whose lower case is an ASCII letter are the Kelvin sign and the
-- capital I with a dot. All others are left as they are: their lower case occurs in no pattern.
unfoldable pub lower : ℕ → ℕ
lower c =
    if leb b'A' c && leb c b'Z'
    then c + 32
    else if eqb c 0x212a
    then b'k'
    else if eqb c 0x130
    then b'i'
    else c

unfoldable pub to_lower : String → List ℕ
unfolding lower
to_lower String.[] = []
to_lower (String.◌∷◌ c s) = lower (code c) ∷ to_lower s

-- The code points of a text.
unfoldable pub codes : String → List ℕ
codes (String.◌∷◌ letter rest) = code letter ∷ codes rest
codes String.[] = []

unfoldable pub is_prefix : List ℕ → List ℕ → Bool
is_prefix [] t = true
is_prefix (p ∷ ps) [] = false
is_prefix (p ∷ ps) (c ∷ t) = eqb p c && is_prefix ps t

-- Whether the second text occurs in the first.
unfoldable pub contains : List ℕ → List ℕ → Bool
unfolding is_prefix
contains [] p = is_prefix p []
contains (c ∷ t) p = let rest = contains t p in if is_prefix p (c ∷ t) then true else rest
