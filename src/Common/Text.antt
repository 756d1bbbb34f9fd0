-- ===== src/Common/Text.antt =====
-- Texts: the characters and the UTF-8 bytes of a string, decimal numbers, and white space.
pub mod Decimal
pub mod Utf8
pub mod Fields
use Prim.Native.Char.{Char, code}
use Prim.Native.Nat.{ℕ, zero, suc, ◌+◌, ◌-◌, ◌*◌, ◌/◌, ◌%◌, ◌^◌}
use Prim.Native.String
use Prim.Native.String.{String}
use mathlib.Core.Bool.{Bool, ◌&&◌, ◌||◌}
use mathlib.Core.Option.{Option, none, some}
use mathlib.Core.List.{List, [], ◌∷◌, ◌++◌}
use nautilus_messaging_relay.Common.Int.{ℤ, pos, negsuc}
use nautilus_messaging_relay.Common.Tests.{ltb, leb, if◌then◌else◌, ◌==◌, nat_eq}

-- The code points of a string.
abbrev pub codes : String → List ℕ
codes String.[] = []
codes (String.◌∷◌ c s) = code c ∷ codes s

infixr 65 ◌+s◌
abbrev pub ◌+s◌ : String → String → String
s +s t = String.◌++◌ s t

-- The UTF-8 encoding of a code point.
unfoldable pub utf8 : ℕ → List ℕ
utf8 c =
    if ltb c 128
    then c ∷ []
    else if ltb c 2048
    then (192 + c / 64) ∷ (128 + c % 64) ∷ []
    else if ltb c 65536
    then (224 + c / 4096) ∷ (128 + c / 64 % 64) ∷ (128 + c % 64) ∷ []
    else (240 + c / 262144) ∷ (128 + c / 4096 % 64) ∷ (128 + c / 64 % 64) ∷ (128 + c % 64) ∷ []

-- `as_bytes`
unfoldable pub as_bytes : String → List ℕ
unfolding utf8
as_bytes String.[] = []
as_bytes (String.◌∷◌ c s) = utf8 (code c) ++ as_bytes s

abbrev digit : ℕ → String
digit d =
    if d == 0
    then "0"
    else if d == 1
    then "1"
    else if d == 2
    then "2"
    else if d == 3
    then "3"
    else if d == 4
    then "4"
    else if d == 5
    then "5"
    else if d == 6
    then "6"
    else if d == 7
    then "7"
    else if d == 8
    then "8"
    else "9"

abbrev hex_digit : ℕ → String
hex_digit d =
    if d == 10
    then "a"
    else if d == 11
    then "b"
    else if d == 12
    then "c"
    else if d == 13
    then "d"
    else if d == 14
    then "e"
    else if d == 15
    then "f"
    else digit d

-- A byte as `{:02x}` prints it.
unfoldable pub show_byte : ℕ → String
show_byte b = hex_digit (b / 16) +s hex_digit (b % 16)

pub show_from : ℕ → ℕ → String
show_from zero n = ""
show_from (suc fuel) n =
    let front = show_from fuel (n / 10) in if ltb n 10 then digit n else front +s digit (n % 10)

-- A number in decimal; there are no more digits than the number plus one.
unfoldable pub show_nat : ℕ → String
unfolding show_from
show_nat n = show_from (suc n) n

unfoldable pub show_int : ℤ → String
unfolding show_nat
show_int (pos n) = show_nat n
show_int (negsuc n) = "-" +s show_nat (suc n)

-- The value of a row of decimal digits, read from the left behind `acc`.
unfoldable pub digits_value : ℕ → List ℕ → Option ℕ
digits_value acc [] = some acc
digits_value acc (c ∷ cs) =
    let rest = digits_value (acc * 10 + (c - b'0')) cs in
    if leb b'0' c && leb c b'9' then rest else none

-- One digit at least.
abbrev pub number : List ℕ → Option ℕ
number [] = none
number (c ∷ cs) = digits_value 0 (c ∷ cs)

-- A number of `w` bits; `none` on overflow.
abbrev pub within : ℕ → Option ℕ → Option ℕ
within w none = none
within w (some n) = if ltb n (2 ^ w) then some n else none

abbrev pub unsigned : ℕ → List ℕ → Option ℕ
unsigned w [] = none
unsigned w (c ∷ cs) = if c == b'+' then within w (number cs) else within w (number (c ∷ cs))

-- `str::parse` at an unsigned type of `w` bits, `none` for an error
unfoldable pub parse_unsigned : ℕ → String → Option ℕ
unfolding digits_value
parse_unsigned w s = unsigned w (codes s)

-- A signed number of 64 bits; `none` on overflow.
abbrev pub as_i64 : Option ℕ → Option ℤ
as_i64 none = none
as_i64 (some n) = if ltb n (2 ^ 63) then some (pos n) else none

abbrev pub as_negative_i64 : Option ℕ → Option ℤ
as_negative_i64 none = none
as_negative_i64 (some zero) = some (pos 0)
as_negative_i64 (some (suc n)) = if ltb n (2 ^ 63) then some (negsuc n) else none

abbrev pub signed : List ℕ → Option ℤ
signed [] = none
signed (c ∷ cs) =
    if c == b'-'
    then as_negative_i64 (number cs)
    else if c == b'+'
    then as_i64 (number cs)
    else as_i64 (number (c ∷ cs))

-- `str::parse::<i64>`, `none` for an error
unfoldable pub parse_i64 : String → Option ℤ
unfolding digits_value
parse_i64 s = signed (codes s)

-- The `White_Space` characters of Unicode.
abbrev is_white : ℕ → Bool
is_white c =
    (leb 9 c && leb c 13)
    || (c == 32)
    || (c == 133)
    || (c == 160)
    || (c == 5760)
    || (leb 8192 c && leb c 8202)
    || (c == 8232)
    || (c == 8233)
    || (c == 8239)
    || (c == 8287)
    || (c == 12288)

unfoldable pub trim_start : String → String
trim_start String.[] = ""
trim_start (String.◌∷◌ c s) =
    let rest = trim_start s in if is_white (code c) then rest else String.◌∷◌ c s

abbrev cons_unless_blank : Char → String → String
cons_unless_blank c String.[] = if is_white (code c) then "" else String.◌∷◌ c ""
cons_unless_blank c (String.◌∷◌ d s) = String.◌∷◌ c (String.◌∷◌ d s)

unfoldable pub trim_end : String → String
trim_end String.[] = ""
trim_end (String.◌∷◌ c s) = cons_unless_blank c (trim_end s)

-- `str::trim`
unfoldable pub trim : String → String
unfolding trim_start trim_end
trim s = trim_end (trim_start s)
