-- ===== src/Logbook/Digits.antt =====
-- The digits that `re` and `str` know in argus/providers/logbook/logbook.py and
-- argus/providers/logbook/knowledge_hub.py, by the tables of Unicode 14.
use argus_mcp_server.Prelude.{
  ℕ, ◌+◌, ◌-◌, ◌≤◌, Str, Bool, true, false, ◌&&◌, ◌||◌, List, [], ◌∷◌, All, any, all, leb,
  if◌then◌else◌, ◌≡◌, refl, arith,
}

abbrev pub ascii_digit : ℕ → Bool
ascii_digit c = leb 48 c && leb c 57

-- The zeros of the scripts whose digits are no ASCII.
abbrev other_zeros : List ℕ
other_zeros =
    1632 ∷ 1776 ∷ 1984 ∷ 2406 ∷ 2534 ∷ 2662 ∷ 2790 ∷ 2918 ∷ 3046 ∷ 3174 ∷ 3302 ∷ 3430 ∷ 3558 ∷ 3664
    ∷ 3792 ∷ 3872 ∷ 4160 ∷ 4240 ∷ 6112 ∷ 6160 ∷ 6470 ∷ 6608 ∷ 6784 ∷ 6800 ∷ 6992 ∷ 7088 ∷ 7232
    ∷ 7248 ∷ 42528 ∷ 43216 ∷ 43264 ∷ 43472 ∷ 43504 ∷ 43600 ∷ 44016 ∷ 65296 ∷ 66720 ∷ 68912 ∷ 69734
    ∷ 69872 ∷ 69942 ∷ 70096 ∷ 70384 ∷ 70736 ∷ 70864 ∷ 71248 ∷ 71360 ∷ 71472 ∷ 71904 ∷ 72016 ∷ 72784
    ∷ 73040 ∷ 73120 ∷ 92768 ∷ 92864 ∷ 93008 ∷ 120782 ∷ 120792 ∷ 120802 ∷ 120812 ∷ 120822 ∷ 123200
    ∷ 123632 ∷ 125264 ∷ 130032 ∷ []

abbrev digit_of : (c z : ℕ) → Bool
digit_of c z = leb z c && leb c (z + 9)

-- `\d`
unfoldable pub is_decimal : ℕ → Bool
is_decimal c = ascii_digit c || any (digit_of c) other_zeros

abbrev between : (c : ℕ) → ℕ × ℕ → Bool
between c (first, last) = leb first c && leb c last

-- The other characters that `isdigit` takes: superscripts and digits in circles or brackets.
abbrev other_digits : List (ℕ × ℕ)
other_digits =
    (178, 179)
    ∷ (185, 185)
    ∷ (4969, 4977)
    ∷ (6618, 6618)
    ∷ (8304, 8304)
    ∷ (8308, 8313)
    ∷ (8320, 8329)
    ∷ (9312, 9320)
    ∷ (9332, 9340)
    ∷ (9352, 9360)
    ∷ (9450, 9450)
    ∷ (9461, 9469)
    ∷ (9471, 9471)
    ∷ (10102, 10110)
    ∷ (10112, 10120)
    ∷ (10122, 10130)
    ∷ (68160, 68163)
    ∷ (69216, 69224)
    ∷ (69714, 69722)
    ∷ (127232, 127242)
    ∷ []

-- `str.isdigit` of one character.
unfoldable pub is_digit : ℕ → Bool
unfolding is_decimal
is_digit c = is_decimal c || any (between c) other_digits

unfoldable pub value_from : List ℕ → ℕ → ℕ
value_from [] c = 0
value_from (z ∷ zeros) c = let rest = value_from zeros c in if digit_of c z then c - z else rest

-- What `int` takes a decimal digit for.
unfoldable pub digit_value : ℕ → ℕ
unfolding value_from
digit_value c = value_from (48 ∷ other_zeros) c

none_of : (c : ℕ) (zeros : List ℕ) → All (λ z. c + 1 ≤ z) zeros → any (digit_of c) zeros ≡ false
none_of c [] h = refl
none_of c (z ∷ zeros) h = ground (arith, h.0, none_of c zeros h.1)

all_above :
    (c : ℕ) (zeros : List ℕ)
    → c ≤ 127
    → all (λ z. leb 1632 z) zeros ≡ true
    → All (λ z. c + 1 ≤ z) zeros
all_above c [] small h = tt
all_above c (z ∷ zeros) small h =
    (ground (arith, small, h), all_above c zeros small (ground (arith, h)))

-- Of ASCII only `0` to `9` are decimal digits.
pub is_decimal_ascii : (c : ℕ) → c ≤ 127 → is_decimal c ≡ ascii_digit c
unfolding is_decimal
is_decimal_ascii c small =
    rw (none_of c other_zeros (all_above c other_zeros small refl)) (ground arith)

pub and-left : (a b : Bool) → (a && b) ≡ true → a ≡ true
and-left true b h = refl
and-left false b h = h

and-right : (a b : Bool) → (a && b) ≡ true → b ≡ true
and-right true b h = h
and-right false b h = absurd (ground arith)

is_digit_decimal : (c : ℕ) → is_decimal c ≡ true → is_digit c ≡ true
unfolding is_digit
is_digit_decimal c h = rw h refl

pub all-is_digit : (s : Str) → all is_decimal s ≡ true → all is_digit s ≡ true
all-is_digit [] h = refl
all-is_digit (c ∷ s) h =
    let head : is_decimal c ≡ true = and-left (is_decimal c) (all is_decimal s) h in
    rw (is_digit_decimal c head) (all-is_digit s (and-right (is_decimal c) (all is_decimal s) h))
