-- ===== src/Py/Format.antt =====
-- The formatting of numbers in f-strings: `str` of an int, `repr` of a float (the shortest decimal
-- that reads back as the same double), and the `.2%` format.
mod Tests
use Prim.Native.String.{◌++◌ as append}
use verdict_risk.Py.Float.{
  plus, minus, Float, nan, infinite, finite, magnitude, nearest, round, mul,
}
use verdict_risk.Prelude.{
  ltb, leb, ◌==◌, if◌then◌else◌, length, take, drop, ℤ, pos, negsuc, ℕ, zero, suc, ◌+◌, ◌-◌, ◌*◌,
  ◌/◌, ◌%◌, ◌^◌, String, Bool, true, false, List, [], ◌∷◌, map,
}

-- The parts of an f-string.
unfoldable pub join : List String → String
join [] = ""
join (s ∷ rest) = append s (join rest)

digit : ℕ → String
digit zero = "0"
digit (suc zero) = "1"
digit (suc (suc zero)) = "2"
digit (suc (suc (suc zero))) = "3"
digit (suc (suc (suc (suc zero)))) = "4"
digit (suc (suc (suc (suc (suc zero))))) = "5"
digit (suc (suc (suc (suc (suc (suc zero)))))) = "6"
digit (suc (suc (suc (suc (suc (suc (suc zero))))))) = "7"
digit (suc (suc (suc (suc (suc (suc (suc (suc zero)))))))) = "8"
digit n = "9"

-- The decimal digits of `n`, most significant first; a number has fewer digits than units.
digits_from : ℕ → ℕ → List ℕ → List ℕ
digits_from zero n acc = n ∷ acc
digits_from (suc fuel) n acc = elim (ltb n 10) [
  | true ↦ n ∷ acc
  | false ↦ digits_from fuel (n / 10) ((n % 10) ∷ acc)
]

digits : ℕ → List ℕ
unfolding digits_from
digits n = digits_from n n []

text : List ℕ → String
unfolding join digit
text ds = join (map digit ds)

unfoldable pub str_nat : ℕ → String
unfolding digits text
str_nat n = text (digits n)

unfoldable pub str_int : ℤ → String
unfolding str_nat join
str_int (pos n) = str_nat n
str_int (negsuc n) = join ("-" ∷ str_nat (suc n) ∷ [])

zeros : ℕ → List ℕ
zeros zero = []
zeros (suc n) = 0 ∷ zeros n

-- Without the zeros at the end.
strip_zeros : List ℕ → List ℕ
strip_zeros [] = []
strip_zeros (d ∷ ds) = elim (strip_zeros ds) [
  | [] ↦ if d == 0 then [] else d ∷ []
  | e ∷ es ↦ d ∷ e ∷ es
]

-- Whether the decimal `d * 10^(exp + 1 - p - 324)` reads back as the magnitude `m`.
reads_back : ℕ → ℕ → ℕ → ℕ → Bool
unfolding magnitude
reads_back m exp p d = magnitude (d * 10 ^ (exp + 1) * 2 ^ 1074) (10 ^ (p + 324)) == m

-- The shortest digits of `m`, whose decimal exponent is `exp - 324`, from `p` digits on: of the two
-- neighbours with `p` digits the nearer that reads back, with `p`. With 17 digits the nearer always does.
shortest : ℕ → ℕ → ℕ → ℕ → ℕ × ℕ
unfolding reads_back nearest
shortest zero m exp p = (0, p)
shortest (suc fuel) m exp p =
    let num = m * 10 ^ 324 * 10 ^ (p - (exp + 1)) in
    let den = 2 ^ 1074 * 10 ^ (exp + 1 - p) in
    let near = nearest num den in
    let far = if near == (num / den) then near + 1 else near - 1 in
    let more = shortest fuel m exp (p + 1) in
    if reads_back m exp p near then (near, p) else if reads_back m exp p far then (far, p) else more

-- With the decimal point behind the first `k` digits.
positional : List ℕ → ℕ → String
unfolding text join zeros
positional ds k = join (
    text (take k ds)
    ∷ text (zeros (k - length ds))
    ∷ "."
    ∷ (if leb (length ds) k then "0" else text (drop k ds))
    ∷ [])

-- With the exponent `e` of the first digit, `away` from 0, in two digits at least.
scientific : List ℕ → String → ℕ → String
unfolding text join str_nat
scientific ds sign away = join (
    text (take 1 ds)
    ∷ (if leb (length ds) 1 then "" else ".")
    ∷ text (drop 1 ds)
    ∷ sign
    ∷ (if ltb away 10 then "0" else "")
    ∷ str_nat away
    ∷ [])

-- `repr` of the digits `ds` with the decimal point behind place `point - 324`.
layout : List ℕ → ℕ → String
unfolding positional scientific
layout ds point =
    if leb point 320
    then scientific ds "e-" (325 - point)
    else if leb point 324
    then join ("0." ∷ text (zeros (324 - point)) ∷ text ds ∷ [])
    else if leb point 340
    then positional ds (point - 324)
    else scientific ds "e+" (point - 325)

repr_magnitude : ℕ → String
unfolding digits shortest layout strip_zeros
repr_magnitude zero = "0.0"
repr_magnitude (suc n) =
    let exp = length (digits (suc n * 10 ^ 324 / 2 ^ 1074)) - 1 in
    let (d, p) = shortest 17 (suc n) exp 1 in
    layout (strip_zeros (digits d)) (exp + 1 + (length (digits d) - p))

-- `repr(x)`, which is also what an f-string writes for `{x}`
unfoldable pub repr : Float → String
unfolding repr_magnitude join
repr nan = "nan"
repr (infinite plus) = "inf"
repr (infinite minus) = "-inf"
repr (finite plus m) = repr_magnitude m
repr (finite minus m) = join ("-" ∷ repr_magnitude m ∷ [])

-- A magnitude with two decimals, correctly rounded.
fixed_two : ℕ → String
unfolding nearest join str_nat digit
fixed_two m =
    let n = nearest (m * 100) (2 ^ 1074) in
    join (str_nat (n / 100) ∷ "." ∷ digit (n / 10 % 10) ∷ digit (n % 10) ∷ [])

-- `f"{x:.2%}"`: a hundred times the float, with two decimals
unfoldable pub percent : Float → String
unfolding mul round magnitude join fixed_two
percent x = write (mul x (finite plus (100 * 2 ^ 1074)))
  where
    write : Float → String
    write nan = "nan%"
    write (infinite plus) = "inf%"
    write (infinite minus) = "-inf%"
    write (finite plus m) = join (fixed_two m ∷ "%" ∷ [])
    write (finite minus m) = join ("-" ∷ fixed_two m ∷ "%" ∷ [])

-- `f"{x:.2f}"`
unfoldable pub two_decimals : Float → String
unfolding join fixed_two
two_decimals nan = "nan"
two_decimals (infinite plus) = "inf"
two_decimals (infinite minus) = "-inf"
two_decimals (finite plus m) = fixed_two m
two_decimals (finite minus m) = join ("-" ∷ fixed_two m ∷ [])
