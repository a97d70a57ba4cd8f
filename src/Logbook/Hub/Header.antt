-- ===== src/Logbook/Hub/Header.antt =====
-- What argus/providers/logbook/knowledge_hub.py reads from a document: the number in its code, and the
-- fields of the first paragraph. `parse_logged` is datetime.strptime.
use argus_mcp_server.Dict
use argus_mcp_server.Dict.{Dict}
use argus_mcp_server.Logbook.Digits.{ascii_digit, is_decimal, digit_value}
use argus_mcp_server.Logbook.EntryId.{span}
use argus_mcp_server.Prelude.{
  ℕ, zero, suc, ◌+◌, ◌*◌, Str, str, ◌++◌, Bool, true, false, ◌&&◌, ◌||◌, List, [], ◌∷◌, Option,
  none, some, map, keep, drop, length, if◌then◌else◌, nat_beq, leb, nonempty, or_else, starts_with,
  contains, strip, lstrip, split,
}

-- `LogbookEntry`, whose values are texts here.
pub record HubEntry : Type 0 where
  pub id : Str
  pub title : Str
  pub content : Str
  pub logbooks : List Str
  pub tags : List Str
  pub created_at : Option ℕ
  pub author : Option Str
  pub url : Option Str

-- A JSON object of texts and nulls.
abbrev pub Document : Type 0
Document = Dict (Option Str)

-- `document.get(key)`
abbrev pub field_of : Document → Str → Option Str
field_of d key = elim (Dict.get d key) [ none ↦ none | some v ↦ v ]

-- `document.get(key) or ""`
abbrev pub text_of : Document → Str → Str
text_of d key = or_else (field_of d key) []

abbrev is_code_char : ℕ → Bool
is_code_char c = leb 65 c && leb c 90 || ascii_digit c || nat_beq c 45

-- `$`: the end, or a last line feed.
abbrev at_end : Str → Bool
at_end [] = true
at_end (c ∷ []) = nat_beq c 10
at_end (c ∷ d ∷ s) = false

-- `(?:-[A-Z0-9-]+)?$`
abbrev is_code_tail : Str → Bool
is_code_tail [] = true
is_code_tail (c ∷ s) =
    let (more, rest) = span is_code_char s in
    at_end (c ∷ s) || nat_beq c 45 && nonempty more && at_end rest

-- `int` of decimal digits.
unfoldable number : ℕ → Str → ℕ
unfolding digit_value
number n [] = n
number n (c ∷ digits) = number (n * 10 + digit_value c) digits

-- `_CODE_NUMBER.search`, one more than the number that is found, and 0 for none.
unfoldable code_number : Str → ℕ
unfolding span number is_decimal
code_number [] = 0
code_number (c ∷ s) =
    let later = code_number s in
    let (digits, rest) = span is_decimal (c ∷ s) in
    if nonempty digits && is_code_tail rest then suc (number 0 digits) else later

-- The key of the sort: `_olog_number`, plus one.
unfoldable pub olog_number : Document → ℕ
unfolding code_number Dict.get
olog_number d = code_number (text_of d (str "code"))

-- `[v.strip() for v in value.split(",") if v.strip()]`
unfoldable pub split_names : Str → List Str
unfolding split strip
split_names value = keep nonempty (map strip (split 44 value))

-- The two sides of the first blank line, the separator left out.
unfoldable partition_blank : Str → Str × Str
partition_blank [] = ([], [])
partition_blank (c ∷ s) =
    let (left, right) = partition_blank s in
    if nat_beq c 10 && starts_with s (10 ∷ []) then ([], drop 1 s) else (c ∷ left, right)

-- The lookahead `·\s*\*\*|$` behind the spaces.
abbrev stops : Str → Bool
stops [] = true
stops (c ∷ s) = nat_beq c 183 && starts_with (lstrip s) (str "**")

abbrev add_char : ℕ → Option (Str × Str) → Option (Str × Str)
add_char c none = none
add_char c (some (value, rest)) = some (c ∷ value, rest)

-- `(.*?)\s*(?=·\s*\*\*|$)`: the shortest value, and what follows the spaces behind it.
unfoldable value_of : Str → Option (Str × Str)
unfolding lstrip
value_of [] = some ([], [])
value_of (c ∷ s) =
    let more = value_of s in
    if stops (lstrip (c ∷ s))
    then some ([], lstrip (c ∷ s))
    else (if nat_beq c 10 then none else add_char c more)

abbrev field_names : List Str
field_names = str "Logged" ∷ str "By" ∷ str "Logbooks" ∷ str "Tags" ∷ str "Level" ∷ []

abbrev named : Str → Option (Str × Str) → Option (Str × Str × Str)
named name none = none
named name (some (value, rest)) = some (name, value, rest)

-- A field at the start of the text: its name, its value and what follows.
unfoldable match_field : List Str → Str → Option (Str × Str × Str)
unfolding value_of lstrip starts_with
match_field [] s = none
match_field (name ∷ names) s =
    let mark = str "**" ++ name ++ str ":**" in
    let other = match_field names s in
    if starts_with s mark then named name (value_of (lstrip (drop (length mark) s))) else other

-- `dict(_HEADER_FIELD.findall(head))`, a character or a field for each unit of fuel.
unfoldable find_fields : (fuel : ℕ) → Dict Str → Str → Dict Str
unfolding match_field Dict.put
find_fields zero fields s = fields
find_fields (suc fuel) fields [] = fields
find_fields (suc fuel) fields (c ∷ s) = elim (match_field field_names (c ∷ s)) [
  | none ↦ find_fields fuel fields s
  | some (name, value, rest) ↦ find_fields fuel (Dict.put fields name value) rest
]

unfoldable pub header_fields : (head : Str) → Dict Str
unfolding find_fields contains
header_fields head = if contains head (str "**") then find_fields (length head) [] head else []

-- `rest if fields else body`
abbrev text_behind : Dict Str → (rest body : Str) → Str
text_behind [] rest body = body
text_behind (f ∷ fields) rest body = rest

abbrev some_text : Str → Option Str
some_text [] = none
some_text (c ∷ s) = some (c ∷ s)

-- `document.get("link") or document.get("url")`
abbrev link_of : Document → Option Str
link_of d = elim (some_text (text_of d (str "link"))) [
  | none ↦ field_of d (str "url")
  | some link ↦ some link
]

module _ (parse_logged : Str → Option ℕ) where
  abbrev logged : Option Str → Option ℕ
  logged none = none
  logged (some value) = parse_logged value

  unfoldable pub to_entry : Document → HubEntry
  unfolding header_fields partition_blank split_names Dict.get
  to_entry d =
      let body = text_of d (str "body_markdown") in
      let (head, rest) = partition_blank body in
      let fields = header_fields head in
      record {
        id = or_else (some (text_of d (str "code"))) (text_of d (str "uid"));
        title = text_of d (str "title");
        content = text_behind fields rest body;
        logbooks = split_names (or_else (Dict.get fields (str "Logbooks")) []);
        tags = split_names (or_else (Dict.get fields (str "Tags")) []);
        created_at = logged (Dict.get fields (str "Logged"));
        author = some_text (or_else (Dict.get fields (str "By")) []);
        url = link_of d;
      }
