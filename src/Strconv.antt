-- ===== src/Strconv.antt =====
-- The decimal conversions of an int64 that the program uses: `strconv.ParseInt(s, 10, 64)` and the
-- `%d` of package fmt. An int64 is its bit pattern.
use Prim.Native.Char.{code}
use Prim.Native.String
use Prim.Native.String.{[], ◌∷◌}
use go_metrics.Common.{
  ℕ, zero, suc, ◌+◌, ◌-◌, ◌*◌, ◌/◌, ◌%◌, ◌^◌, String, Bool, true, false, Option, none, some,
  int64_mod, ◌&&◌, leb, ltb, eqb, if◌then◌else◌, ◌≡◌, refl,
}

is_digit : ℕ → Bool
is_digit c = leb b'0' c && leb c b'9'

digits_from : String → ℕ → Option ℕ
unfolding is_digit
digits_from [] n = some n
digits_from (ch ∷ s) n =
    let c = code ch in if is_digit c then digits_from s (n * 10 + (c - b'0')) else none

-- One or more digits.
magnitude : String → Option ℕ
unfolding digits_from
magnitude [] = none
magnitude (ch ∷ s) = digits_from (ch ∷ s) 0

-- The range check: at most 2 ^ 63 - 1, or 2 ^ 63 behind a minus sign.
signed : Bool → Option ℕ → Option ℕ
signed _ none = none
signed true (some n) = if leb n (2 ^ 63) then some ((int64_mod - n) % int64_mod) else none
signed false (some n) = if ltb n (2 ^ 63) then some n else none

unfoldable pub parse_int : String → Option ℕ
unfolding magnitude signed
parse_int [] = none
parse_int (ch ∷ s) =
    let c = code ch in
    if eqb c b'-'
    then signed true (magnitude s)
    else if eqb c b'+'
    then signed false (magnitude s)
    else signed false (magnitude (ch ∷ s))

digit : ℕ → String
digit zero = "0"
digit (suc zero) = "1"
digit (suc (suc zero)) = "2"
digit (suc (suc (suc zero))) = "3"
digit (suc (suc (suc (suc zero)))) = "4"
digit (suc (suc (suc (suc (suc zero))))) = "5"
digit (suc (suc (suc (suc (suc (suc zero)))))) = "6"
digit (suc (suc (suc (suc (suc (suc (suc zero))))))) = "7"
digit (suc (suc (suc (suc (suc (suc (suc (suc zero)))))))) = "8"
digit _ = "9"

-- A number below 10 ^ 20 has at most twenty digits, the fuel.
print_from : ℕ → ℕ → String → String
unfolding digit
print_from zero n rest = rest
print_from (suc fuel) n rest =
    let more = print_from fuel (n / 10) (String.◌++◌ (digit (n % 10)) rest) in
    if ltb n 10 then String.◌++◌ (digit n) rest else more

unfoldable pub format_int : ℕ → String
unfolding print_from
format_int x =
    if ltb x (2 ^ 63)
    then print_from 20 x ""
    else String.◌++◌ "-" (print_from 20 (int64_mod - x) "")

parse_int_tests :
    (parse_int "-9223372036854775808" ≡ some (2 ^ 63))
    × (parse_int "9223372036854775808" ≡ none)
    × (parse_int "+007" ≡ some 7)
    × (parse_int "-1" ≡ some (2 ^ 64 - 1))
    × (parse_int "1_0" ≡ none)
    × (parse_int "-" ≡ none)
unfolding parse_int
parse_int_tests = (refl, refl, refl, refl, refl, refl)

format_int_tests :
    (format_int 0 ≡ "0")
    × (format_int (2 ^ 63) ≡ "-9223372036854775808")
    × (format_int 1070 ≡ "1070")
unfolding format_int
format_int_tests = (refl, refl, refl)
