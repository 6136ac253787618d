-- ===== src/Text.antt =====
-- What the program uses of Go's `fmt` and `strconv`: `Sprintf` of "%v-%v" and of an integer
-- (`strconv.Itoa`), and `Atoi`.
pub mod RoundTrip
use Prim.Native.Char.{Char, code}
use Prim.Native.String.{[], ◌∷◌, ◌++◌ as append}
use iapetos.Prelude.{
  ℕ, zero, suc, ◌+◌, ◌-◌, ◌*◌, ◌/◌, ◌%◌, ◌^◌, String, ◌&&◌, Option, none, some, ltb, leb, eqb,
  if◌then◌else◌,
}
use iapetos.Prelude.Int.{ℤ, pos, negsuc}

abbrev max_u64 : ℕ
max_u64 = 2 ^ 64 - 1

abbrev pub max_int : ℕ
max_int = 2 ^ 63 - 1

digit_char : ℕ → Char
digit_char zero = "0"
digit_char (suc zero) = "1"
digit_char (suc (suc zero)) = "2"
digit_char (suc (suc (suc zero))) = "3"
digit_char (suc (suc (suc (suc zero)))) = "4"
digit_char (suc (suc (suc (suc (suc zero))))) = "5"
digit_char (suc (suc (suc (suc (suc (suc zero)))))) = "6"
digit_char (suc (suc (suc (suc (suc (suc (suc zero))))))) = "7"
digit_char (suc (suc (suc (suc (suc (suc (suc (suc zero)))))))) = "8"
digit_char _ = "9"

-- The decimal digits of `n` in front of `out`; more fuel than `n` is enough.
emit : ℕ → ℕ → String → String
emit zero n out = out
emit (suc f) n out =
    let rest = emit f (n / 10) (digit_char (n % 10) ∷ out) in
    if ltb n 10 then digit_char n ∷ out else rest

itoa_ℕ : ℕ → String
unfolding emit digit_char
itoa_ℕ n = emit (suc n) n []

-- `strconv.Itoa(i)`, `fmt.Sprintf("%v", i)`.
unfoldable pub itoa : ℤ → String
unfolding itoa_ℕ
itoa (pos n) = itoa_ℕ n
itoa (negsuc n) = append "-" (itoa_ℕ (suc n))

-- `fmt.Sprintf("%v-%v", a, b)`.
abbrev pub dashed : String → String → String
dashed a b = append a (append "-" b)

-- The digits read so far are worth `n`; past 64 bits the largest value is the result.
scan : String → ℕ → Option ℕ
scan [] n = some n
scan (c ∷ s) n =
    let n' = n * 10 + (code c - 48) in
    let rest = scan s n' in
    if leb 48 (code c) && leb (code c) 57
    then if ltb max_u64 n' then some max_u64 else rest
    else none

unsigned : String → Option ℕ
unfolding scan
unsigned [] = none
unsigned (c ∷ s) = scan (c ∷ s) 0

positive : Option ℕ → ℤ
positive none = pos 0
positive (some u) = if ltb max_int u then pos max_int else pos u

negative : Option ℕ → ℤ
negative none = pos 0
negative (some zero) = pos 0
negative (some (suc u)) = if ltb max_int u then negsuc max_int else negsuc u

-- The value that `strconv.Atoi` returns: 0 beside a syntax error, the nearest `int` beside a range
-- error.
unfoldable pub atoi : String → ℤ
unfolding unsigned positive negative
atoi [] = pos 0
atoi (c ∷ s) =
    if eqb (code c) 45
    then negative (unsigned s)
    else if eqb (code c) 43
    then positive (unsigned s)
    else positive (unsigned (c ∷ s))
