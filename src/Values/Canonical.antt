-- ===== src/Values/Canonical.antt =====
-- `json.dumps(v, sort_keys=True, default=str, separators=(",", ":"))`: the text that a confirmation
-- is a fingerprint of. A dictionary is written in the order of its keys.
pub mod Order
pub mod Lexer
pub mod Literals
pub mod Cut
pub mod Brackets
pub mod Members
pub mod Dumps
use argus_mcp_server.Dict.{Dict}
use argus_mcp_server.Prelude.{
  ℕ, ◌+◌, ◌-◌, ◌/◌, ◌%◌, Str, str, true, false, ◌||◌, ◌&&◌, List, [], ◌∷◌, ◌++◌, map, ltb, leb,
  nat_beq, if◌then◌else◌, join, str_leb,
}
use argus_mcp_server.Values.{
  Value, Items, Fields, Float, null, bool, int, float, text, list, dict, object, other, nil, cons,
  end, field, finite, nan, inf, neg_inf, show_int,
}

unfoldable pub hex_digit : ℕ → ℕ
hex_digit d = if ltb d 10 then 48 + d else 87 + d

-- `\uXXXX`
unfoldable pub unicode_escape : ℕ → Str
unfolding hex_digit
unicode_escape c =
    str "\\u"
    ++ hex_digit (c / 4096 % 16)
      ∷ hex_digit (c / 256 % 16)
      ∷ hex_digit (c / 16 % 16)
      ∷ hex_digit (c % 16)
      ∷ []

-- `ensure_ascii`: what is not printable ASCII is escaped, beyond 0xffff as two surrogates.
unfoldable pub escape_char : ℕ → Str
unfolding unicode_escape
escape_char c =
    if nat_beq c 34 || nat_beq c 92
    then 92 ∷ c ∷ []
    else if nat_beq c 10
    then str "\\n"
    else if nat_beq c 13
    then str "\\r"
    else if nat_beq c 9
    then str "\\t"
    else if nat_beq c 12
    then str "\\f"
    else if nat_beq c 8
    then str "\\b"
    else if leb 32 c && leb c 126
    then c ∷ []
    else if leb c 0xffff
    then unicode_escape c
    else unicode_escape (0xd800 + (c - 0x10000) / 1024)
      ++ unicode_escape (0xdc00 + (c - 0x10000) % 1024)

unfoldable pub escape : Str → Str
unfolding escape_char
escape [] = []
escape (c ∷ s) = escape_char c ++ escape s

unfoldable pub quote : Str → Str
unfolding escape
quote s = 34 ∷ (escape s ++ 34 ∷ [])

-- The entries of a dictionary by key, as `sort_keys` orders them.
unfoldable pub insert_entry {ℓ} : {V : Type ℓ} → Str → V → Dict V → Dict V
insert_entry k v [] = (k, v) ∷ []
insert_entry k v ((j, w) ∷ d) =
    if str_leb k j then (k, v) ∷ (j, w) ∷ d else (j, w) ∷ insert_entry k v d

unfoldable pub sort_entries {ℓ} : {V : Type ℓ} → Dict V → Dict V
unfolding insert_entry
sort_entries [] = []
sort_entries ((k, v) ∷ d) = insert_entry k v (sort_entries d)

abbrev member : Str × Str → Str
member (k, v) = quote k ++ str ":" ++ v

pub write_sorted : Dict Str → Str
unfolding quote
write_sorted d = str "{" ++ join (str ",") (map member d) ++ str "}"

-- A dictionary whose values are written already.
unfoldable pub write_object : Dict Str → Str
unfolding sort_entries write_sorted
write_object d = write_sorted (sort_entries d)

abbrev write_float : Float → Str
write_float (finite r) = r
write_float nan = str "NaN"
write_float inf = str "Infinity"
write_float neg_inf = str "-Infinity"

unfoldable mutual
  unfolding write_object quote

  pub dumps : Value → Str
  dumps null = str "null"
  dumps (bool true) = str "true"
  dumps (bool false) = str "false"
  dumps (int i) = show_int i
  dumps (float f) = write_float f
  dumps (text s) = quote s
  dumps (list xs) = str "[" ++ join (str ",") (dumps_items xs) ++ str "]"
  dumps (dict fs) = write_object (dumps_fields fs)
  dumps (object shown fs) = quote shown
  dumps (other shown) = quote shown

  pub dumps_items : Items → List Str
  dumps_items nil = []
  dumps_items (cons x xs) = dumps x ∷ dumps_items xs

  pub dumps_fields : Fields → Dict Str
  dumps_fields end = []
  dumps_fields (field k v fs) = (k, dumps v) ∷ dumps_fields fs

-- A dictionary of values.
unfoldable pub dumps_dict : Dict Value → Str
unfolding dumps
dumps_dict d = write_object (map (λ e. (e.0, dumps e.1)) d)
