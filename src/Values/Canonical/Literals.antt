-- ===== src/Values/Canonical/Literals.antt =====
-- What json.dumps writes for a text, its quotes and escapes included, is read back as that text.
use mathlib.Core.List.{append_assoc, append-nil}
use argus_mcp_server.Prelude.{
  List, map, ℕ, ◌+◌, ◌-◌, ◌*◌, ◌/◌, ◌%◌, ◌≤◌, Str, true, false, ◌&&◌, ◌||◌, [], ◌∷◌, ◌++◌, some,
  All, leb, nat_beq, ◌≡◌, ◌≢◌, refl, ap, ◌∙◌, arith, Bool-cases, nat_beq_iff, ◌⊎◌, inl, inr,
}
use argus_mcp_server.Values.Canonical.{hex_digit, unicode_escape, escape_char, escape, quote}
use argus_mcp_server.Values.Canonical.Lexer.{
  Token, mark, plain, inside, emit, literal, onto, push, is_low, is_high, hex_value, escape_value,
  lex,
}

-- A code point that is no surrogate.
abbrev pub IsScalar : ℕ → Type 0
IsScalar c = (c ≤ 0x10ffff) × ((c + 1 ≤ 0xd800) ⊎ (0xe000 ≤ c))

hex_value-hex_digit : (d : ℕ) → d ≤ 15 → hex_value (hex_digit d) ≡ some d
unfolding hex_value hex_digit
hex_value-hex_digit d h = ground (arith, h)

lex-unicode_escape :
    (v : ℕ) (read rest : Str)
    → v ≤ 0xffff
    → lex (inside read) (unicode_escape v ++ rest) ≡ lex (inside (push v read)) rest
unfolding lex unicode_escape
lex-unicode_escape v read rest h =
    let whole : (((0 * 16 + v / 4096 % 16) * 16 + v / 256 % 16) * 16 + v / 16 % 16) * 16 + v % 16
        ≡ v =
      omega arith in
    rw
      (
        hex_value-hex_digit (v / 4096 % 16) (omega arith),
        hex_value-hex_digit (v / 256 % 16) (omega arith),
        hex_value-hex_digit (v / 16 % 16) (omega arith),
        hex_value-hex_digit (v % 16) (omega arith),
      )
      (ap (λ n. lex (inside (push n read)) rest) whole)

-- Above the characters of one unit: the two surrogates are read back as one character.
push-surrogates :
    (c : ℕ) (read : Str)
    → c ≤ 0x10ffff
    → 0x10000 ≤ c
    → push (0xdc00 + (c - 0x10000) % 1024) (push (0xd800 + (c - 0x10000) / 1024) read) ≡ c ∷ read
push-surrogates c read h wide =
    let high : ℕ = 0xd800 + (c - 0x10000) / 1024 in
    let low : ℕ = 0xdc00 + (c - 0x10000) % 1024 in
    let whole : 0x10000 + (high - 0xd800) * 1024 + (low - 0xdc00) ≡ c = omega arith in
    let not_low : is_low high ≡ false = ground arith in
    let low_is : is_low low ≡ true = ground arith in
    let high_is : is_high high ≡ true = ground arith in rw (not_low, low_is, high_is, whole) refl

-- The two escapes of a character above the first plane.
lex-surrogates :
    (c : ℕ) (read rest : Str)
    → c ≤ 0x10ffff
    → 0x10000 ≤ c
    → lex (inside read) (
        (unicode_escape (0xd800 + (c - 0x10000) / 1024)
          ++ unicode_escape (0xdc00 + (c - 0x10000) % 1024))
        ++ rest)
      ≡ lex (inside (c ∷ read)) rest
lex-surrogates c read rest h wide =
    let high : ℕ = 0xd800 + (c - 0x10000) / 1024 in
    let low : ℕ = 0xdc00 + (c - 0x10000) % 1024 in
    ap (lex (inside read)) (append_assoc (unicode_escape high) (unicode_escape low) rest)
    ∙ lex-unicode_escape high read (unicode_escape low ++ rest) (omega arith)
    ∙ lex-unicode_escape low (push high read) rest (omega arith)
    ∙ ap (λ s. lex (inside s) rest) (push-surrogates c read h wide)

-- The escapes of one letter.
abbrev IsLetter : ℕ → ℕ → Type 0
IsLetter c d = (escape_char c ≡ 92 ∷ d ∷ []) × (nat_beq d 117 ≡ false) × (escape_value d ≡ some c)

escape_char-cases :
    (c : ℕ)
    → leb 32 c && leb c 126 ≡ false
    → leb c 0xffff ≡ true
    → ((d : ℕ) × IsLetter c d) ⊎ (escape_char c ≡ unicode_escape c)
unfolding escape_char
escape_char-cases c other one =
    let not_quoted : nat_beq c 34 || nat_beq c 92 ≡ false = ground (arith, other) in
    elim (Bool-cases (nat_beq c 10)) [
      | inl e ↦ rw ((nat_beq_iff c 10).0 e) (inl (110, (refl, refl, refl)))
      | inr n₁ ↦ elim (Bool-cases (nat_beq c 13)) [
        | inl e ↦ rw ((nat_beq_iff c 13).0 e) (inl (114, (refl, refl, refl)))
        | inr n₂ ↦ elim (Bool-cases (nat_beq c 9)) [
          | inl e ↦ rw ((nat_beq_iff c 9).0 e) (inl (116, (refl, refl, refl)))
          | inr n₃ ↦ elim (Bool-cases (nat_beq c 12)) [
            | inl e ↦ rw ((nat_beq_iff c 12).0 e) (inl (102, (refl, refl, refl)))
            | inr n₄ ↦ elim (Bool-cases (nat_beq c 8)) [
              | inl e ↦ rw ((nat_beq_iff c 8).0 e) (inl (98, (refl, refl, refl)))
              | inr n₅ ↦ inr (rw (not_quoted, n₁, n₂, n₃, n₄, n₅, other, one) refl)
            ]
          ]
        ]
      ]
    ]

escape_char_wide :
    (c : ℕ)
    → leb c 0xffff ≡ false
    → escape_char c
      ≡ unicode_escape (0xd800 + (c - 0x10000) / 1024)
        ++ unicode_escape (0xdc00 + (c - 0x10000) % 1024)
unfolding escape_char
escape_char_wide c two =
    let n₀ : nat_beq c 34 || nat_beq c 92 ≡ false = ground (arith, two) in
    let n₁ : nat_beq c 10 ≡ false = ground (arith, two) in
    let n₂ : nat_beq c 13 ≡ false = ground (arith, two) in
    let n₃ : nat_beq c 9 ≡ false = ground (arith, two) in
    let n₄ : nat_beq c 12 ≡ false = ground (arith, two) in
    let n₅ : nat_beq c 8 ≡ false = ground (arith, two) in
    let n₆ : leb 32 c && leb c 126 ≡ false = ground (arith, two) in
    rw (n₀, n₁, n₂, n₃, n₄, n₅, n₆, two) refl

lex-printable :
    (c : ℕ) (read rest : Str)
    → leb 32 c && leb c 126 ≡ true
    → lex (inside read) (escape_char c ++ rest) ≡ lex (inside (c ∷ read)) rest
unfolding lex escape_char
lex-printable c read rest printable = elim (Bool-cases (nat_beq c 34)) [
  | inl e ↦ rw ((nat_beq_iff c 34).0 e) refl
  | inr n₀ ↦ elim (Bool-cases (nat_beq c 92)) [
    | inl e ↦ rw ((nat_beq_iff c 92).0 e) refl
    | inr n₁ ↦
        let n₂ : nat_beq c 10 ≡ false = ground (arith, printable) in
        let n₃ : nat_beq c 13 ≡ false = ground (arith, printable) in
        let n₄ : nat_beq c 9 ≡ false = ground (arith, printable) in
        let n₅ : nat_beq c 12 ≡ false = ground (arith, printable) in
        let n₆ : nat_beq c 8 ≡ false = ground (arith, printable) in
        rw (n₀, n₁, n₂, n₃, n₄, n₅, n₆, printable) (rw (n₀, n₁) refl)
  ]
]

-- One character between the quotes.
lex-escape_char :
    (c : ℕ) (read rest : Str)
    → IsScalar c
    → lex (inside read) (escape_char c ++ rest) ≡ lex (inside (c ∷ read)) rest
unfolding lex
lex-escape_char c read rest (small, scalar) = elim (Bool-cases (leb 32 c && leb c 126)) [
  | inl printable ↦ lex-printable c read rest printable
  | inr other ↦ elim (Bool-cases (leb c 0xffff)) [
    | inl one ↦ elim (escape_char-cases c other one) [
      | inl (d, (written, no_digits, value)) ↦ rw (written, no_digits, value) refl
      | inr written ↦ rw written (
          lex-unicode_escape c read rest (ground (arith, one))
          ∙ ap (λ s. lex (inside s) rest) (ground (arith, scalar)))
    ]
    | inr two ↦
        ap (λ s. lex (inside read) (s ++ rest)) (escape_char_wide c two)
        ∙ lex-surrogates c read rest small (ground (arith, two))
  ]
]

lex-escape :
    (s read rest : Str)
    → All IsScalar s
    → (back : Str) × (lex (inside read) (escape s ++ rest) ≡ lex (inside back) rest)
      × ((t : Str) → onto back t ≡ onto read (s ++ t))
unfolding escape
lex-escape [] read rest h = (read, refl, λ t. refl)
lex-escape (c ∷ s) read rest h =
    let (back, same, held) = lex-escape s (c ∷ read) rest h.1 in
    (
      back,
      ap (lex (inside read)) (append_assoc (escape_char c) (escape s) rest)
          ∙ lex-escape_char c read (escape s ++ rest) h.0
          ∙ same,
      held,
    )

-- A written text is read back as one literal with that value, whatever follows it.
pub lex-quote :
    (s rest : Str)
    → All IsScalar s
    → lex plain (quote s ++ rest) ≡ emit (some (literal s)) (lex plain rest)
unfolding quote lex
lex-quote s rest h =
    let (back, same, held) = lex-escape s [] (34 ∷ rest) h in
    let opened : lex plain (quote s ++ rest) ≡ lex (inside []) (escape s ++ 34 ∷ rest) =
      ap (lex (inside [])) (append_assoc (escape s) (34 ∷ []) rest) in
    let value : onto back [] ≡ s = held [] ∙ append-nil s in
    opened ∙ same ∙ ap (λ v. emit (some (literal v)) (lex plain rest)) value

-- The text is read as these tokens.
abbrev pub Reads : Str → List Token → Type 0
Reads s ts = lex plain s ≡ some ts

pub quote-Reads :
    (s rest : Str) (ts : List Token)
    → All IsScalar s
    → Reads rest ts
    → Reads (quote s ++ rest) (literal s ∷ ts)
quote-Reads s rest ts h reads = lex-quote s rest h ∙ ap (emit (some (literal s))) reads

-- No character is a quote.
abbrev pub IsBare : Str → Type 0
IsBare s = All (λ c. c ≢ 34) s

pub marks-Reads :
    (s rest : Str) (ts : List Token)
    → IsBare s
    → Reads rest ts
    → Reads (s ++ rest) (map mark s ++ ts)
unfolding lex
marks-Reads [] rest ts h reads = reads
marks-Reads (c ∷ s) rest ts h reads =
    let no_quote : nat_beq c 34 ≡ false = ground (arith, h.0) in
    rw no_quote (ap (emit (some (mark c))) (marks-Reads s rest ts h.1 reads))
