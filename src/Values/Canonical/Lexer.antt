-- ===== src/Values/Canonical/Lexer.antt =====
-- A reader of JSON text that does not know the writer: it takes the string literals apart, with their
-- escapes, and leaves every other character as a mark. It is what the texts that json.dumps
-- writes are read back with; LogQL has the same literals.
use argus_mcp_server.Prelude.{
  ℕ, zero, suc, ◌+◌, ◌-◌, ◌*◌, Str, Bool, ◌&&◌, List, [], ◌∷◌, Option, none, some, leb, nat_beq,
  if◌then◌else◌,
}

pub data Token : Type 0 where
  mark : (char : ℕ) → Token
  literal : (value : Str) → Token

-- Between literals, inside of one, behind its backslash, or at the digits of `\u`; the characters of
-- the literal that were read stand last first.
pub data Mode : Type 0 where
  plain : Mode
  inside : (read : Str) → Mode
  escaped : (read : Str) → Mode
  digits : (left value : ℕ) (read : Str) → Mode
  failed : Mode

-- The first text behind the second, turned around.
abbrev pub onto : Str → Str → Str
onto [] s = s
onto (c ∷ read) s = onto read (c ∷ s)

abbrev pub is_high : ℕ → Bool
is_high c = leb 0xd800 c && leb c 0xdbff

abbrev pub is_low : ℕ → Bool
is_low c = leb 0xdc00 c && leb c 0xdfff

abbrev joined : ℕ → Str → Str
joined c [] = c ∷ []
joined c (h ∷ read) =
    if is_high h then (0x10000 + (h - 0xd800) * 1024 + (c - 0xdc00)) ∷ read else c ∷ h ∷ read

-- One more character; a low surrogate joins the high one before it.
abbrev pub push : ℕ → Str → Str
push c read = if is_low c then joined c read else c ∷ read

unfoldable pub hex_value : ℕ → Option ℕ
hex_value c =
    if leb 48 c && leb c 57
    then some (c - 48)
    else (if leb 97 c && leb c 102
        then some (c - 87)
        else (if leb 65 c && leb c 70 then some (c - 55) else none))

abbrev pub escape_value : ℕ → Option ℕ
escape_value c =
    if nat_beq c 34
    then some 34
    else if nat_beq c 92
    then some 92
    else if nat_beq c 47
    then some 47
    else if nat_beq c 110
    then some 10
    else if nat_beq c 114
    then some 13
    else if nat_beq c 116
    then some 9
    else if nat_beq c 102
    then some 12
    else if nat_beq c 98
    then some 8
    else none

abbrev behind_escape : Option ℕ → Str → Mode
behind_escape none read = failed
behind_escape (some c) read = inside (c ∷ read)

abbrev behind_digit : ℕ → ℕ → Str → Option ℕ → Mode
behind_digit left value read none = failed
behind_digit zero value read (some d) = inside (push (value * 16 + d) read)
behind_digit (suc left) value read (some d) = digits left (value * 16 + d) read

abbrev pub next : Mode → ℕ → Mode
next plain c = if nat_beq c 34 then inside [] else plain
next (inside read) c =
    if nat_beq c 34 then plain else (if nat_beq c 92 then escaped read else inside (c ∷ read))
next (escaped read) c =
    if nat_beq c 117 then digits 3 0 read else behind_escape (escape_value c) read
next (digits left value read) c = behind_digit left value read (hex_value c)
next failed c = failed

abbrev pub out : Mode → ℕ → Option Token
out plain c = if nat_beq c 34 then none else some (mark c)
out (inside read) c = if nat_beq c 34 then some (literal (onto read [])) else none
out _ c = none

abbrev pub emit : Option Token → Option (List Token) → Option (List Token)
emit none r = r
emit (some t) none = none
emit (some t) (some ts) = some (t ∷ ts)

unfoldable pub lex : Mode → Str → Option (List Token)
unfolding hex_value
lex plain [] = some []
lex (inside read) [] = none
lex (escaped read) [] = none
lex (digits left value read) [] = none
lex failed [] = none
lex m (c ∷ s) = emit (out m c) (lex (next m c) s)
