-- ===== src/Common/Text.antt =====
-- Rendering of numbers by `fmt.Sprintf`: %d and %0wX.
use Prim.Native.Nat.{ℕ, zero, suc, ◌-◌, ◌/◌, ◌%◌}
use Prim.Native.String.{String}
use open_kmip_server.Common.Tests.{◌==◌, if◌then◌else◌}
use open_kmip_server.Common.Int.{ℤ, pos, negsuc}

abbrev pub cat : String → String → String
cat s t = Prim.Native.String.◌++◌ s t

digit : ℕ → String
digit n =
    if n == 0
    then "0"
    else if n == 1
    then "1"
    else if n == 2
    then "2"
    else if n == 3
    then "3"
    else if n == 4
    then "4"
    else if n == 5
    then "5"
    else if n == 6
    then "6"
    else if n == 7
    then "7"
    else if n == 8
    then "8"
    else if n == 9
    then "9"
    else if n == 10
    then "A"
    else if n == 11
    then "B"
    else if n == 12
    then "C"
    else if n == 13
    then "D"
    else if n == 14
    then "E"
    else "F"

-- The digits of n in a base, at least `width` of them, with fuel for their number.
digits : ℕ → ℕ → ℕ → ℕ → String → String
unfolding digit
digits zero base width n out = out
digits (suc fuel) base width n out =
    let rest = digits fuel base (width - 1) (n / base) (cat (digit (n % base)) out) in
    if n == 0 then (if width == 0 then out else rest) else rest

-- %d: an `int` has at most 19 digits.
unfoldable pub dec : ℤ → String
unfolding digits
dec (pos n) = digits 20 10 1 n ""
dec (negsuc n) = cat "-" (digits 20 10 1 (suc n) "")

-- %0wX
unfoldable pub hex : ℕ → ℤ → String
unfolding digits
hex width (pos n) = digits 20 16 width n ""
hex width (negsuc n) = cat "-" (digits 20 16 (width - 1) (suc n) "")
