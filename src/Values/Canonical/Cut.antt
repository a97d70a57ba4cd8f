-- ===== src/Values/Canonical/Cut.antt =====
-- Where the text of one JSON value ends: at a comma, a colon or a closing bracket that stands in no
-- literal and in no bracket of the value. A text that json.dumps writes ends nowhere before its end.
use mathlib.Core.List.{append_assoc}
use argus_mcp_server.Prelude.{
  ℕ, zero, suc, ◌/◌, ◌%◌, ◌-◌, ◌+◌, ◌≤◌, Str, ◌++◌, Bool, true, false, ◌&&◌, ◌||◌, List, [], ◌∷◌,
  nat_beq, leb, if◌then◌else◌, All, ◌≡◌, ◌≢◌, refl, ap, sym, ◌∙◌, arith, Bool-cases, inl, inr,
}
use argus_mcp_server.Values.Canonical.{hex_digit, unicode_escape, escape_char, escape, quote}

-- Between literals, in a literal, or behind a backslash in one; in so many brackets.
pub data Place : Type 0 where
  open_text quoted slashed : (depth : ℕ) → Place

abbrev is_opening : ℕ → Bool
is_opening c = nat_beq c 91 || nat_beq c 123

abbrev pub is_closing : ℕ → Bool
is_closing c = nat_beq c 93 || nat_beq c 125

abbrev pub is_separator : ℕ → Bool
is_separator c = nat_beq c 44 || nat_beq c 58

abbrev pub stops : Place → ℕ → Bool
stops (open_text zero) c = is_closing c || is_separator c
stops _ c = false

abbrev less : ℕ → ℕ
less zero = zero
less (suc d) = d

abbrev pub move : Place → ℕ → Place
move (open_text d) c =
    if nat_beq c 34
    then quoted d
    else (if is_opening c
        then open_text (suc d)
        else (if is_closing c then open_text (less d) else open_text d))
move (quoted d) c =
    if nat_beq c 34 then open_text d else (if nat_beq c 92 then slashed d else quoted d)
move (slashed d) c = quoted d

abbrev pub before : Str → Str × Str → Str × Str
before s r = (s ++ r.0, r.1)

unfoldable pub cut : Place → Str → Str × Str
cut p [] = ([], [])
cut p (c ∷ s) = if stops p c then ([], c ∷ s) else before (c ∷ []) (cut (move p c) s)

-- The text leads from one place to another, and does not end before.
abbrev pub Leads : Place → Str → Place → Type 0
Leads p s q = (rest : Str) → cut p (s ++ rest) ≡ before s (cut q rest)

-- It leads back to where it began, in any number of brackets.
abbrev pub Passes : Str → Type 0
Passes s = (d : ℕ) → Leads (open_text d) s (open_text d)

before-before : (s t : Str) (r : Str × Str) → before s (before t r) ≡ before (s ++ t) r
before-before s t r = ap (λ u. (u, r.1)) (sym (append_assoc s t r.0))

pub Leads-append : (p q r : Place) (s t : Str) → Leads p s q → Leads q t r → Leads p (s ++ t) r
Leads-append p q r s t first then_ rest =
    ap (cut p) (append_assoc s t rest)
    ∙ first (t ++ rest)
    ∙ ap (before s) (then_ rest)
    ∙ before-before s t (cut r rest)

-- One character.
Leads-one : (p : Place) (c : ℕ) → stops p c ≡ false → Leads p (c ∷ []) (move p c)
unfolding cut
Leads-one p c goes rest = rw goes refl

-- No quote, bracket, comma or colon.
abbrev pub IsAtom : ℕ → Type 0
IsAtom c = (c ≢ 34) × (c ≢ 44) × (c ≢ 58) × (c ≢ 91) × (c ≢ 93) × (c ≢ 123) × (c ≢ 125)

Leads-atom : (d c : ℕ) → IsAtom c → Leads (open_text d) (c ∷ []) (open_text d)
unfolding cut
Leads-atom zero c h rest = ground (arith, h)
Leads-atom (suc d) c h rest = ground (arith, h)

pub atoms-Passes : (s : Str) → All IsAtom s → Passes s
unfolding cut
atoms-Passes [] h d = λ rest. refl
atoms-Passes (c ∷ s) h d =
    Leads-append (open_text d) (open_text d) (open_text d) (c ∷ []) s (Leads-atom d c h.0)
      (atoms-Passes s h.1 d)

-- Neither a quote nor a backslash: it stays in the literal.
abbrev IsInner : ℕ → Type 0
IsInner c = (c ≢ 34) × (c ≢ 92)

Leads-inner : (d : ℕ) (s : Str) → All IsInner s → Leads (quoted d) s (quoted d)
unfolding cut
Leads-inner d [] h = λ rest. refl
Leads-inner d (c ∷ s) h =
    let not_quote : nat_beq c 34 ≡ false = ground (arith, h.0) in
    let not_slash : nat_beq c 92 ≡ false = ground (arith, h.0) in
    Leads-append (quoted d) (quoted d) (quoted d) (c ∷ []) s
      (λ rest. rw (not_quote, not_slash) refl) (Leads-inner d s h.1)

-- A backslash, any character, and such characters.
Leads-escape_of : (d c : ℕ) (s : Str) → All IsInner s → Leads (quoted d) (92 ∷ c ∷ s) (quoted d)
unfolding cut
Leads-escape_of d c s h =
    Leads-append (quoted d) (quoted d) (quoted d) (92 ∷ c ∷ []) s (λ rest. refl) (Leads-inner d s h)

hex_digit-IsInner : (d : ℕ) → d ≤ 15 → IsInner (hex_digit d)
unfolding hex_digit
hex_digit-IsInner d h = (ground (arith, h), ground (arith, h))

Leads-unicode_escape : (d v : ℕ) → Leads (quoted d) (unicode_escape v) (quoted d)
unfolding unicode_escape
Leads-unicode_escape d v =
    let four : Str =
      hex_digit (v / 4096 % 16)
      ∷ hex_digit (v / 256 % 16)
      ∷ hex_digit (v / 16 % 16)
      ∷ hex_digit (v % 16)
      ∷ [] in
    Leads-escape_of d 117 four (
      hex_digit-IsInner (v / 4096 % 16) (omega arith),
      (
        hex_digit-IsInner (v / 256 % 16) (omega arith),
        (
          hex_digit-IsInner (v / 16 % 16) (omega arith),
          (hex_digit-IsInner (v % 16) (omega arith), tt),
        ),
      ),
    )

if-Leads :
    (p q : Place) (b : Bool) (s t : Str)
    → Leads p s q
    → Leads p t q
    → Leads p (if b then s else t) q
if-Leads p q true s t first second = first
if-Leads p q false s t first second = second

-- The letter that is written for the character, and else what is given.
abbrev letters : ℕ → Str → List (ℕ × ℕ) → Str
letters c own [] = own
letters c own ((code, letter) ∷ more) =
    if nat_beq c code then 92 ∷ letter ∷ [] else letters c own more

letters-Leads :
    (d c : ℕ) (own : Str)
    → Leads (quoted d) own (quoted d)
    → (more : List (ℕ × ℕ)) → Leads (quoted d) (letters c own more) (quoted d)
letters-Leads d c own h [] = h
letters-Leads d c own h ((code, letter) ∷ more) =
    if-Leads (quoted d) (quoted d) (nat_beq c code) (92 ∷ letter ∷ []) (letters c own more)
      (Leads-escape_of d letter [] tt) (letters-Leads d c own h more)

-- An escaped character is a backslash with one more, a character of its own, or one or two units.
Leads-escape_char : (d c : ℕ) → Leads (quoted d) (escape_char c) (quoted d)
unfolding escape_char
Leads-escape_char d c = elim (Bool-cases (nat_beq c 34 || nat_beq c 92)) [
  | inl e ↦ rw e (Leads-escape_of d c [] tt)
  | inr n₀ ↦
      let inner : IsInner c = (ground (arith, n₀), ground (arith, n₀)) in
      let high = unicode_escape (0xd800 + (c - 0x10000) / 1024) in
      let low = unicode_escape (0xdc00 + (c - 0x10000) % 1024) in
      let unit : Str = if leb c 0xffff then unicode_escape c else high ++ low in
      let own : Str = if leb 32 c && leb c 126 then c ∷ [] else unit in
      let own_Leads : Leads (quoted d) own (quoted d) =
        if-Leads (quoted d) (quoted d) (leb 32 c && leb c 126) (c ∷ []) unit
          (Leads-inner d (c ∷ []) (inner, tt))
          (if-Leads (quoted d) (quoted d) (leb c 0xffff) (unicode_escape c) (high ++ low)
            (Leads-unicode_escape d c)
            (Leads-append (quoted d) (quoted d) (quoted d) high low
              (Leads-unicode_escape d (0xd800 + (c - 0x10000) / 1024))
              (Leads-unicode_escape d (0xdc00 + (c - 0x10000) % 1024)))) in
      rw n₀ (
        letters-Leads d c own own_Leads
          ((10, 110) ∷ (13, 114) ∷ (9, 116) ∷ (12, 102) ∷ (8, 98) ∷ []))
]

Leads-escape : (d : ℕ) (s : Str) → Leads (quoted d) (escape s) (quoted d)
unfolding escape
Leads-escape d [] = λ rest. refl
Leads-escape d (c ∷ s) =
    Leads-append (quoted d) (quoted d) (quoted d) (escape_char c) (escape s) (Leads-escape_char d c)
      (Leads-escape d s)

open_quote : (d : ℕ) → Leads (open_text d) (34 ∷ []) (quoted d)
unfolding cut
open_quote zero rest = refl
open_quote (suc d) rest = refl

-- A literal, whatever its text.
pub quote-Passes : (s : Str) → Passes (quote s)
unfolding quote cut
quote-Passes s d =
    Leads-append (open_text d) (quoted d) (open_text d) (34 ∷ []) (escape s ++ 34 ∷ [])
      (open_quote d)
      (Leads-append (quoted d) (quoted d) (open_text d) (escape s) (34 ∷ []) (Leads-escape d s)
        λ rest. refl)
