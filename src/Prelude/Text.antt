-- ===== src/Prelude/Text.antt =====
-- A Python `str` as the list of its code points, with the methods of `str` that the program calls.
-- `lower` maps the letters of Latin-1, the range of an HTTP header; other code points it keeps.
use Prim.Native.Char.{code}
use Prim.Native.String.{String}
use mathlib.Core.List.{reverse}
use mathlib.Core.Logic.{◌↔◌}
use Prim.Native.Nat.{ℕ, zero, suc, ◌+◌, ◌/◌, ◌%◌}
use mathlib.Core.Bool.{Bool, true, false, not, ◌&&◌, ◌||◌}
use mathlib.Core.List.{List, [], ◌∷◌, ◌++◌, map}
use mathlib.Core.Option.{Option, none, some}
use mathlib.Core.Path.{◌≡◌, refl}
use native.Mathlib.Omega.{arith}
use argus_mcp_server.Prelude.Lists.{any}
use argus_mcp_server.Prelude.Tests.{ltb, leb, nat_beq, if◌then◌else◌, Eq}

abbrev pub Str : Type 0
Str = List ℕ

-- A literal. `String` has its own `[]` and `∷`.
abbrev pub str : String → Str
str String.[] = []
str (String.◌∷◌ c s) = code c ∷ str s

unfoldable pub str_beq : Str → Str → Bool
str_beq [] [] = true
str_beq [] (d ∷ t) = false
str_beq (c ∷ s) [] = false
str_beq (c ∷ s) (d ∷ t) = nat_beq c d && str_beq s t

eq_of_str_beq : (s t : Str) → str_beq s t ≡ true → s ≡ t
unfolding str_beq
eq_of_str_beq [] [] h = refl
eq_of_str_beq [] (d ∷ t) h = ground arith
eq_of_str_beq (c ∷ s) [] h = ground arith
eq_of_str_beq (c ∷ s) (d ∷ t) h = ground (arith, eq_of_str_beq s t)

pub str_beq_self : (s : Str) → str_beq s s ≡ true
unfolding str_beq
str_beq_self [] = refl
str_beq_self (c ∷ s) = ground (arith, str_beq_self s)

pub str_beq_iff : (s t : Str) → (str_beq s t ≡ true) ↔ (s ≡ t)
str_beq_iff s t = (eq_of_str_beq s t, λ e. rw e (str_beq_self t))

instance abbrev pub str_eq : Eq Str
str_eq = record { test = str_beq; test_iff = str_beq_iff }

-- `bool(s)`
abbrev pub nonempty : Str → Bool
nonempty [] = false
nonempty (c ∷ s) = true

-- `bool(o)` for an optional text.
abbrev pub truthy : Option Str → Bool
truthy none = false
truthy (some s) = nonempty s

-- `o or s`
abbrev pub or_else : Option Str → Str → Str
or_else none d = d
or_else (some []) d = d
or_else (some (c ∷ s)) d = c ∷ s

-- `str.isspace` of one code point.
unfoldable pub is_space : ℕ → Bool
is_space c =
    leb 9 c && leb c 13
    || leb 28 c && leb c 32
    || nat_beq c 0x85
    || nat_beq c 0xa0
    || nat_beq c 0x1680
    || leb 0x2000 c && leb c 0x200a
    || nat_beq c 0x2028
    || nat_beq c 0x2029
    || nat_beq c 0x202f
    || nat_beq c 0x205f
    || nat_beq c 0x3000

unfoldable pub lstrip : Str → Str
unfolding is_space
lstrip [] = []
lstrip (c ∷ s) = if is_space c then lstrip s else c ∷ s

unfoldable pub strip : Str → Str
unfolding lstrip
strip s = reverse (lstrip (reverse (lstrip s)))

unfoldable pub lower_char : ℕ → ℕ
lower_char c =
    if leb 65 c && leb c 90 || leb 0xc0 c && leb c 0xde && not (nat_beq c 0xd7) then c + 32 else c

unfoldable pub lower : Str → Str
unfolding lower_char
lower s = map lower_char s

unfoldable pub starts_with : Str → Str → Bool
starts_with s [] = true
starts_with [] (d ∷ p) = false
starts_with (c ∷ s) (d ∷ p) = nat_beq c d && starts_with s p

-- `p in s`
unfoldable pub contains : Str → Str → Bool
unfolding starts_with
contains [] p = starts_with [] p
contains (c ∷ s) p = starts_with (c ∷ s) p || contains s p

unfoldable pub ends_with : Str → Str → Bool
unfolding starts_with
ends_with s p = starts_with (reverse s) (reverse p)

-- `sep.join(parts)`
unfoldable pub join : Str → List Str → Str
join sep [] = []
join sep (s ∷ []) = s
join sep (s ∷ t ∷ rest) = s ++ sep ++ join sep (t ∷ rest)

-- One more code point in front of the first part.
abbrev extend : ℕ → List Str → List Str
extend d [] = (d ∷ []) ∷ []
extend d (part ∷ parts) = (d ∷ part) ∷ parts

-- `s.split(c)` for a separator of one code point.
unfoldable pub split : ℕ → Str → List Str
split c [] = [] ∷ []
split c (d ∷ s) = let parts = split c s in if nat_beq d c then [] ∷ parts else extend d parts

-- `s.strip(c)` for one code point.
unfoldable pub lstrip_char : ℕ → Str → Str
lstrip_char c [] = []
lstrip_char c (d ∷ s) = if nat_beq d c then lstrip_char c s else d ∷ s

unfoldable pub strip_char : ℕ → Str → Str
unfolding lstrip_char
strip_char c s = reverse (lstrip_char c (reverse (lstrip_char c s)))

-- The two sides of the last `c`, `s.rpartition(c)` without the separator; all is on the right where
-- there is none.
unfoldable pub rpartition : ℕ → Str → Str × Str
rpartition c [] = ([], [])
rpartition c (d ∷ s) =
    let (left, right) = rpartition c s in
    if any (λ x. nat_beq x c) s
    then (d ∷ left, right)
    else (if nat_beq d c then ([], s) else ([], d ∷ s))

-- `s.count(c)` for one code point.
unfoldable pub count_char : ℕ → Str → ℕ
count_char c [] = 0
count_char c (d ∷ s) = (if nat_beq d c then 1 else 0) + count_char c s

unfoldable pub show_from : ℕ → ℕ → Str → Str
show_from zero n rest = rest
show_from (suc fuel) n rest =
    let digit = 48 + n % 10 in
    let more = show_from fuel (n / 10) (digit ∷ rest) in if ltb n 10 then digit ∷ rest else more

-- `str(n)`: one digit for each unit of fuel, and a number has fewer digits than its successor.
unfoldable pub show : ℕ → Str
unfolding show_from
show n = show_from (suc n) n []

-- The order of `sorted` on texts.
unfoldable pub str_leb : Str → Str → Bool
str_leb [] t = true
str_leb (c ∷ s) [] = false
str_leb (c ∷ s) (d ∷ t) = ltb c d || nat_beq c d && str_leb s t

-- `sorted(texts)`
unfoldable insert : Str → List Str → List Str
unfolding str_leb
insert s [] = s ∷ []
insert s (t ∷ ts) = let rest = insert s ts in if str_leb s t then s ∷ t ∷ ts else t ∷ rest

unfoldable pub sorted : List Str → List Str
unfolding insert
sorted [] = []
sorted (s ∷ ts) = insert s (sorted ts)
