-- ===== src/Logbook/EntryId.antt =====
-- `olog_entry_id` of argus/providers/logbook/logbook.py: which texts name an Olog entry.
use mathlib.Core.List.{append_assoc, append-nil}
use mathlib.Core.Path.{subst}
use argus_mcp_server.Errors.{argus, ErrorClass, Result, ok, raise}
use argus_mcp_server.Logbook.Digits.{
  ascii_digit, is_decimal, is_digit, is_decimal_ascii, all-is_digit, and-left,
}
use argus_mcp_server.Prelude.{
  ap, sym, ◌∙◌, ℕ, Str, str, ◌++◌, Bool, true, false, ◌&&◌, ◌||◌, [], ◌∷◌, Option, none, some, leb,
  nat_beq, if◌then◌else◌, all, drop, nonempty, lower, lower_char, starts_with, strip, Bool-cases,
  Option-cases, inl, inr, ◌≡◌, refl, arith,
}
use argus_mcp_server.Tools.Arguments.{str_of}
use argus_mcp_server.Values.{Value}

-- `[A-Za-z]` with IGNORECASE, which also takes the dotted capital and the dotless small I, the long S
-- and the Kelvin sign.
abbrev pub is_letter : ℕ → Bool
is_letter c =
    leb 65 c && leb c 90
    || leb 97 c && leb c 122
    || leb 0x130 c && leb c 0x131
    || nat_beq c 0x17f
    || nat_beq c 0x212a

-- `[A-Za-z0-9_]` and `[A-Za-z0-9-]`
abbrev pub is_word : ℕ → Bool
is_word c = is_letter c || ascii_digit c || nat_beq c 95

abbrev pub is_suffix : ℕ → Bool
is_suffix c = is_letter c || ascii_digit c || nat_beq c 45

-- The longest start of a text whose characters pass, and the rest.
unfoldable pub span : (ℕ → Bool) → Str → Str × Str
span p [] = ([], [])
span p (c ∷ s) = let rest = span p s in if p c then (c ∷ rest.0, rest.1) else ([], c ∷ s)

-- `(?:-[A-Za-z0-9-]+)?$`
abbrev pub is_tail : Str → Bool
is_tail [] = true
is_tail (c ∷ s) = nat_beq c 45 && nonempty s && all is_suffix s

-- `(\d+)` and the tail.
unfoldable pub match_digits : Str → Option Str
unfolding span
match_digits s =
    let (digits, rest) = span is_decimal s in
    if nonempty digits && is_tail rest then some digits else none

abbrev after_facility : Str → Option Str
after_facility [] = none
after_facility (c ∷ s) = if nat_beq c 45 then match_digits s else none

-- What follows `OLOG-`.
unfoldable pub match_code : Str → Option Str
unfolding span match_digits
match_code s =
    let (facility, rest) = span is_word s in if nonempty facility then after_facility rest else none

abbrev is_code : Str → Bool
is_code s = starts_with (lower s) (str "olog-")

-- `_OLOG_ID.match`
unfoldable pub match_id : Str → Option Str
unfolding match_digits match_code
match_id s = if is_code s then match_code (drop 5 s) else match_digits s

-- The id in a text that is not padded with blanks.
unfoldable pub parse_id : Str → Option Str
unfolding match_id is_digit
parse_id s = if nonempty s && all is_digit s || is_code s then match_id s else none

-- `repr` for values and texts.
unfoldable pub olog_entry_id : (Value → Str) → Value → Result Str
unfolding parse_id
olog_entry_id repr entry_id = elim (parse_id (strip (str_of repr entry_id))) [
  | some id ↦ ok id
  | none ↦ raise (
      argus ErrorClass.logbook_query_error (
        str "Not a logbook entry id: "
        ++ repr entry_id
        ++ str " (expected e.g. 1234 or OLOG-SPARC-1234)."))
]

-- What `span` takes passes.
span-all : (p : ℕ → Bool) (s : Str) → all p (span p s).0 ≡ true
unfolding span
span-all p [] = refl
span-all p (c ∷ s) = ground (arith, span-all p s)

match_digits-IsDigits :
    (s d : Str) → match_digits s ≡ some d → (nonempty d ≡ true) × (all is_decimal d ≡ true)
unfolding match_digits
match_digits-IsDigits s d e = ground (arith, e, span-all is_decimal s)

match_code-IsDigits :
    (s d : Str) → match_code s ≡ some d → (nonempty d ≡ true) × (all is_decimal d ≡ true)
unfolding match_code
match_code-IsDigits s d e = after (nonempty (span is_word s).0) (span is_word s).1 e
  where
    after :
        (b : Bool) (rest : Str)
        → (if b then after_facility rest else none) ≡ some d
        → (nonempty d ≡ true) × (all is_decimal d ≡ true)
    after false rest e' = absurd (ground arith)
    after true [] e' = absurd (ground arith)
    after true (c ∷ r) e' = match_digits-IsDigits r d (ground (arith, e'))

parse_id-IsDigits :
    (s d : Str) → parse_id s ≡ some d → (nonempty d ≡ true) × (all is_decimal d ≡ true)
unfolding parse_id match_id
parse_id-IsDigits s d e = elim (Bool-cases (is_code s)) [
  | inl code ↦ match_code-IsDigits (drop 5 s) d (ground (arith, e, code))
  | inr bare ↦ match_digits-IsDigits s d (ground (arith, e, bare))
]

-- Whatever is given as an entry's id, what goes into the address of a request is decimal digits, as
-- `\d` has them in any script, and nothing else, at least one of them.
pub olog_entry_id-IsDigits :
    (repr : Value → Str) (entry_id : Value) (id : Str)
    → olog_entry_id repr entry_id ≡ ok id
    → (nonempty id ≡ true) × (all is_decimal id ≡ true)
unfolding olog_entry_id
olog_entry_id-IsDigits repr entry_id id e =
    elim (Option-cases (parse_id (strip (str_of repr entry_id)))) [
      | inl bad ↦ absurd (ground (arith, e, bad))
      | inr (d, good) ↦
          subst (λ x. (nonempty x ≡ true) × (all is_decimal x ≡ true)) {x = d} {y = id}
            (ground (arith, e, good)) (parse_id-IsDigits (strip (str_of repr entry_id)) d good)
    ]

span_whole : (p : ℕ → Bool) (s : Str) → all p s ≡ true → span p s ≡ (s, [])
unfolding span
span_whole p [] h = refl
span_whole p (c ∷ s) h = ground (arith, h, span_whole p s)

span_until :
    (p : ℕ → Bool) (s : Str) (c : ℕ) (r : Str)
    → all p s ≡ true
    → p c ≡ false
    → span p (s ++ c ∷ r) ≡ (s, c ∷ r)
unfolding span
span_until p [] c r h stop = ground (arith, stop)
span_until p (d ∷ s) c r h stop = ground (arith, h, span_until p s c r)

tail_stops : (c : ℕ) (s : Str) → is_tail (c ∷ s) ≡ true → is_decimal c ≡ false
tail_stops c s h = is_decimal_ascii c (ground (arith, h)) ∙ ground (arith, h)

match_digits_tail :
    (d tail : Str)
    → nonempty d ≡ true
    → all is_decimal d ≡ true
    → is_tail tail ≡ true
    → match_digits (d ++ tail) ≡ some d
unfolding match_digits
match_digits_tail d [] one h t = rw (append-nil d, span_whole is_decimal d h, one) refl
match_digits_tail d (c ∷ s) one h t =
    rw (span_until is_decimal d c s h (tail_stops c s t), one, t) refl

is_code_head : (c : ℕ) (s : Str) → is_decimal c ≡ true → is_code (c ∷ s) ≡ false
unfolding lower lower_char starts_with
is_code_head c s h = elim (Bool-cases (leb c 127)) [
  | inl small ↦
      let digit : ascii_digit c ≡ true = sym (is_decimal_ascii c (ground (arith, small))) ∙ h in
      ground (arith, digit)
  | inr large ↦ ground (arith, large)
]

digits_code : (d : Str) → all is_decimal d ≡ true → is_code d ≡ false
unfolding lower starts_with
digits_code [] h = refl
digits_code (c ∷ s) h = is_code_head c s (and-left (is_decimal c) (all is_decimal s) h)

code_digits :
    (facility id tail : Str)
    → nonempty facility ≡ true
    → all is_word facility ≡ true
    → nonempty id ≡ true
    → all is_decimal id ≡ true
    → is_tail tail ≡ true
    → match_code (facility ++ 45 ∷ (id ++ tail)) ≡ some id
unfolding match_code
code_digits facility id tail some_facility words one digits tailed =
    rw (span_until is_word facility 45 (id ++ tail) words refl, some_facility)
      (match_digits_tail id tail one digits tailed)

-- `-` and a suffix, where there is one.
abbrev pub dashed : Str → Str
dashed [] = []
dashed (c ∷ suffix) = 45 ∷ c ∷ suffix

dashed_tail : (suffix : Str) → all is_suffix suffix ≡ true → is_tail (dashed suffix) ≡ true
dashed_tail [] h = refl
dashed_tail (c ∷ suffix) h = h

-- An Olog id of decimal digits leads to itself. So does, to the id in it, the Knowledge Hub's code for
-- an entry of a facility whose name is letters, digits and underscores of `[A-Za-z0-9_]`, without a
-- dash in it: with no suffix, or with one of `-[A-Za-z0-9-]+` behind the id.
pub parse_id_code :
    (facility id suffix : Str)
    → nonempty facility ≡ true
    → all is_word facility ≡ true
    → nonempty id ≡ true
    → all is_decimal id ≡ true
    → all is_suffix suffix ≡ true
    → (parse_id id ≡ some id)
      × (parse_id (str "OLOG-" ++ facility ++ str "-" ++ id ++ dashed suffix) ≡ some id)
unfolding parse_id match_id lower lower_char starts_with
parse_id_code facility id suffix some_facility words one digits suffixed =
    let tail = dashed suffix in
    (
      rw (digits_code id digits, one, all-is_digit id digits)
          (ap match_digits (sym (append-nil id)) ∙ match_digits_tail id [] one digits refl),
      rw (append_assoc (facility ++ str "-") id tail, append_assoc facility (str "-") (id ++ tail))
          (code_digits facility id tail some_facility words one digits
            (dashed_tail suffix suffixed)),
    )
