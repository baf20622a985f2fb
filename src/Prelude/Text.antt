-- ===== src/Prelude/Text.antt =====
-- Decimal printing for keys, and texts as lists of code points.
use Prim.Native.Nat.{ℕ, ◌/◌, ◌%◌}
use Prim.Native.Char.{code}
use Prim.Native.String
use Prim.Native.String.{String}
use mathlib.Core.List.{List, [], ◌∷◌}
use stock_fixer.Prelude.Tests.{if◌then◌else◌, ◌==◌}

abbrev pub codes : String → List ℕ
codes String.[] = []
codes (String.◌∷◌ c s) = code c ∷ codes s

infixl 65 ◌<>◌
abbrev pub ◌<>◌ : String → String → String
s <> t = String.◌++◌ s t

pub digit_text : ℕ → String
digit_text n =
    if n == 0
    then "0"
    else if n == 1
    then "1"
    else if n == 2
    then "2"
    else if n == 3
    then "3"
    else if n == 4
    then "4"
    else if n == 5
    then "5"
    else if n == 6
    then "6"
    else if n == 7
    then "7"
    else if n == 8
    then "8"
    else "9"

-- `{n:02d}` of a number below 100.
unfoldable pub two_digits : ℕ → String
unfolding digit_text
two_digits n = digit_text (n / 10 % 10) <> digit_text (n % 10)

-- `{n}` of a year from 1000 to 9999.
unfoldable pub four_digits : ℕ → String
unfolding digit_text two_digits
four_digits n = two_digits (n / 100) <> two_digits (n % 100)
