-- ===== src/Lora/Text.antt =====
-- Texts as lists of byte values, and the printing that the driver's commands use: std::to_string and
-- snprintf with "%02x" (src/lora_gateways/dx_smart_lr02_gw.cpp).
use Prim.Native.Char.{code}
use Prim.Native.String.{String}
use aether_gateway.Prelude.{
  ℕ, zero, suc, ◌+◌, ◌-◌, ◌*◌, ◌/◌, ◌%◌, ◌≡◌, ◌<◌, List, [], ◌∷◌, ◌++◌, Option, none, some, arith,
  ltb, leb, if◌then◌else◌, ◌&&◌,
}

abbrev pub Text : Type 0
Text = List ℕ

abbrev pub codes : String → Text
codes String.[] = []
codes (String.◌∷◌ c s) = code c ∷ codes s

-- One digit, in lower case.
unfoldable pub hex_digit : ℕ → ℕ
hex_digit d = if ltb d 10 then 48 + d else 87 + d

-- "%02x" of a byte.
unfoldable pub hex2 : ℕ → Text
unfolding hex_digit
hex2 b = hex_digit (b / 16) ∷ hex_digit (b % 16) ∷ []

abbrev pub take : ℕ → Text → Text
take zero xs = []
take (suc n) [] = []
take (suc n) (x ∷ xs) = x ∷ take n xs

-- snprintf writes what fits, with room for the final zero.
unfoldable pub snprintf : ℕ → Text → Text
snprintf size text = take (size - 1) text

-- std::to_string of an int that is at least 0, with fuel for the digits.
unfoldable pub decimal : ℕ → ℕ → Text
decimal zero n = []
decimal (suc fuel) n =
    let rest = decimal fuel (n / 10) ++ (48 + n % 10) ∷ [] in
    if ltb n 10 then (48 + n) ∷ [] else rest

unfoldable pub to_string : ℕ → Text
unfolding decimal
to_string n = decimal (suc n) n

-- Reading a digit back.
unfoldable pub digit_value : ℕ → Option ℕ
digit_value c =
    if leb 48 c && leb c 57
    then some (c - 48)
    else if leb 97 c && leb c 102
    then some (c - 87)
    else none

pub digit_value-hex_digit : (d : ℕ) → d < 16 → digit_value (hex_digit d) ≡ some d
unfolding digit_value hex_digit
digit_value-hex_digit d h = ground arith

abbrev byte_of : Option ℕ → Option ℕ → Option ℕ
byte_of (some h) (some l) = some (h * 16 + l)
byte_of _ _ = none

unfoldable pub read_hex2 : ℕ → ℕ → Option ℕ
read_hex2 h l = byte_of (digit_value h) (digit_value l)

-- Two hexadecimal digits tell the byte.
pub read_hex2-hex2 :
    (b : ℕ) → b < 256 → read_hex2 (hex_digit (b / 16)) (hex_digit (b % 16)) ≡ some b
unfolding read_hex2
read_hex2-hex2 b h =
    rw (digit_value-hex_digit (b / 16) (omega arith), digit_value-hex_digit (b % 16) (omega arith))
      (ground arith)
