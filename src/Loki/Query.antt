-- ===== src/Loki/Query.antt =====
-- What a query that argus/providers/loki/loki.py builds is read as.
use mathlib.Core.List.{append_assoc, append-nil, map-append}
use argus_mcp_server.Loki.{build_query, matcher, or_any, with_text}
use argus_mcp_server.Loki.Reader.{
  LogQuery, with_matcher, read_filter, behind, read_matchers, read_selector, read_query, in_plane,
}
use argus_mcp_server.Prelude.{
  ℕ, Str, str, ◌++◌, false, List, [], ◌∷◌, Option, none, some, map, join, nat_beq, All, All-append,
  all, true, ◌≤◌, ◌+◌, ◌⊎◌, inl, inr, ◌≡◌, ◌≢◌, refl, ap, sym, ◌∙◌, arith,
}
use argus_mcp_server.Values.Canonical.{quote, escape, escape_char}
use argus_mcp_server.Values.Canonical.Lexer.{Token, mark, literal, plain, onto, lex}
use argus_mcp_server.Values.Canonical.Literals.{IsScalar, IsBare, Reads, quote-Reads, marks-Reads}

-- The filters that are given and not empty, by the label with its operator.
abbrev given : (label : Str) → Option Str → List (Str × Str)
given label (some (c ∷ value)) = (label, c ∷ value) ∷ []
given label _ = []

abbrev or_everything : List (Str × Str) → List (Str × Str)
or_everything [] = (str "namespace=~", str ".+") ∷ []
or_everything (m ∷ ms) = m ∷ ms

abbrev given_text : Option Str → Option Str
given_text (some (c ∷ content)) = some (c ∷ content)
given_text _ = none

abbrev pub asked : (namespace pod container content : Option Str) → LogQuery
asked namespace pod container content = record {
  matchers = or_everything (
      given (str "namespace=") namespace
      ++ given (str "pod=") pod
      ++ given (str "container=") container);
  filter = given_text content;
}

abbrev written : Str × Str → Str
written (label, value) = label ++ quote value

abbrev IsLabel : Str → Type 0
IsLabel label = IsBare label × All (λ c. c ≢ 32) label

-- A code point up to U+FFFF that is no surrogate.
abbrev pub InPlane : ℕ → Type 0
InPlane c = (c ≤ 0xffff) × ((c + 1 ≤ 0xd800) ⊎ (0xe000 ≤ c))

InPlane-IsScalar : (s : Str) → All InPlane s → All IsScalar s
InPlane-IsScalar [] h = tt
InPlane-IsScalar (c ∷ s) h = ((omega (arith, h.0.0), h.0.1), InPlane-IsScalar s h.1)

in_plane_char : (c : ℕ) → InPlane c → in_plane c ≡ true
in_plane_char c (small, inl low) = ground (arith, small, low)
in_plane_char c (small, inr high) = ground (arith, small, high)

all-in_plane : (s : Str) → All InPlane s → all in_plane s ≡ true
all-in_plane [] h = refl
all-in_plane (c ∷ s) h = rw (in_plane_char c h.0) (all-in_plane s h.1)

abbrev IsMatcher : Str × Str → Type 0
IsMatcher m = IsLabel m.0 × All InPlane m.1

-- What a selector is read as, in front of the tokens behind it.
selector_tokens : Str × Str → List (Str × Str) → List Token → List Token
selector_tokens m [] ts = map mark m.0 ++ literal m.1 ∷ mark 125 ∷ ts
selector_tokens m (n ∷ ms) ts =
    map mark m.0 ++ literal m.1 ∷ mark 44 ∷ mark 32 ∷ selector_tokens n ms ts

selector-Reads :
    (m : Str × Str) (ms : List (Str × Str)) (rest : Str) (ts : List Token)
    → All IsMatcher (m ∷ ms)
    → Reads rest ts
    → Reads (join (str ", ") (map written (m ∷ ms)) ++ 125 ∷ rest) (selector_tokens m ms ts)
unfolding selector_tokens join
selector-Reads m [] rest ts h reads =
    ap (lex plain) (append_assoc m.0 (quote m.1) (125 ∷ rest))
    ∙ marks-Reads m.0 _ _ h.0.0.0 (
        quote-Reads m.1 _ _ (InPlane-IsScalar m.1 h.0.1)
          (marks-Reads (str "}") rest ts (omega arith) reads))
selector-Reads m (n ∷ ms) rest ts h reads =
    let more = join (str ", ") (map written (n ∷ ms)) in
    ap (lex plain) (
      append_assoc (m.0 ++ quote m.1 ++ str ", ") more (125 ∷ rest)
      ∙ append_assoc (m.0 ++ quote m.1) (str ", ") (more ++ 125 ∷ rest)
      ∙ append_assoc m.0 (quote m.1) (str ", " ++ (more ++ 125 ∷ rest)))
    ∙ marks-Reads m.0 _ _ h.0.0.0 (
        quote-Reads m.1 _ _ (InPlane-IsScalar m.1 h.0.1)
          (marks-Reads (str ", ") _ _ (omega arith) (selector-Reads n ms rest ts h.1 reads)))

read_matchers-marks :
    (l label value : Str) (c : ℕ) (ts : List Token)
    → All (λ d. d ≢ 32) l
    → All InPlane value
    → read_matchers label (map mark l ++ literal value ∷ mark c ∷ ts)
      ≡ with_matcher (onto label l, value) (behind c (read_matchers [] ts) ts)
unfolding read_matchers
read_matchers-marks [] label value c ts h v = rw (all-in_plane value v) refl
read_matchers-marks (d ∷ l) label value c ts h v =
    let no_space : nat_beq d 32 ≡ false = ground (arith, h.0) in
    rw no_space (read_matchers-marks l (d ∷ label) value c ts h.1 v)

abbrev with_matchers : List (Str × Str) → Option LogQuery → Option LogQuery
with_matchers [] q = q
with_matchers (m ∷ ms) q = with_matcher m (with_matchers ms q)

-- The matchers of a selector are read as they are.
read_matchers-selector :
    (m : Str × Str) (ms : List (Str × Str)) (ts : List Token)
    → All IsMatcher (m ∷ ms)
    → read_matchers [] (selector_tokens m ms ts) ≡ with_matchers (m ∷ ms) (read_filter ts)
unfolding read_matchers selector_tokens
read_matchers-selector m [] ts h = read_matchers-marks m.0 [] m.1 125 ts h.0.0.1 h.0.1
read_matchers-selector m (n ∷ ms) ts h =
    read_matchers-marks m.0 [] m.1 44 (mark 32 ∷ selector_tokens n ms ts) h.0.0.1 h.0.1
    ∙ ap (with_matcher m) (read_matchers-selector n ms ts h.1)

matcher-given :
    (label : Str) (o : Option Str) → matcher label o ≡ map written (given (label ++ str "=") o)
matcher-given label none = refl
matcher-given label (some []) = refl
matcher-given label (some (c ∷ value)) = refl

or_any-written : (ms : List (Str × Str)) → or_any (map written ms) ≡ map written (or_everything ms)
unfolding quote escape escape_char
or_any-written [] = refl
or_any-written (m ∷ ms) = refl

abbrev IsText : Option Str → Type 0
IsText none = Unit
IsText (some s) = All InPlane s

given-IsMatcher :
    (label : Str) (o : Option Str) → IsLabel label → IsText o → All IsMatcher (given label o)
given-IsMatcher label none l h = tt
given-IsMatcher label (some []) l h = tt
given-IsMatcher label (some (c ∷ value)) l h = ((l, h), tt)

abbrev filter_text : Option Str → Str
filter_text (some (c ∷ content)) = str " |= " ++ quote (c ∷ content)
filter_text _ = []

-- A selector and what follows it.
abbrev query_of : List (Str × Str) → (rest : Str) → Str
query_of ms rest = 123 ∷ (join (str ", ") (map written ms) ++ 125 ∷ rest)

read_one :
    (m : Str × Str) (ms : List (Str × Str)) (rest : Str) (ts : List Token)
    → All IsMatcher (m ∷ ms)
    → Reads rest ts
    → read_query (query_of (m ∷ ms) rest) ≡ with_matchers (m ∷ ms) (read_filter ts)
unfolding read_query
read_one m ms rest ts h reads =
    ap read_selector (
      marks-Reads (str "{") (join (str ", ") (map written (m ∷ ms)) ++ 125 ∷ rest) _ (omega arith)
        (selector-Reads m ms rest ts h reads))
    ∙ read_matchers-selector m ms ts h

read_query-query_of :
    (ms : List (Str × Str)) (rest : Str) (ts : List Token)
    → All IsMatcher (or_everything ms)
    → Reads rest ts
    → read_query (query_of (or_everything ms) rest)
      ≡ with_matchers (or_everything ms) (read_filter ts)
read_query-query_of [] rest ts h reads = read_one (str "namespace=~", str ".+") [] rest ts h reads
read_query-query_of (m ∷ ms) rest ts h reads = read_one m ms rest ts h reads

query_text :
    (ms : List (Str × Str)) (content : Option Str)
    → with_text (str "{" ++ join (str ", ") (or_any (map written ms)) ++ str "}") content
      ≡ query_of (or_everything ms) (filter_text content)
query_text ms none = ap (λ ws. str "{" ++ join (str ", ") ws ++ str "}") (or_any-written ms)
query_text ms (some []) = ap (λ ws. str "{" ++ join (str ", ") ws ++ str "}") (or_any-written ms)
query_text ms (some (c ∷ content)) =
    let joined = join (str ", ") (map written (or_everything ms)) in
    ap (λ ws. (str "{" ++ join (str ", ") ws ++ str "}") ++ str " |= " ++ quote (c ∷ content))
      (or_any-written ms)
    ∙ append_assoc ((123 ∷ joined) ++ str "}") (str " |= ") (quote (c ∷ content))
    ∙ append_assoc (123 ∷ joined) (str "}") (str " |= " ++ quote (c ∷ content))

abbrev filter_tokens : Option Str → List Token
filter_tokens (some (c ∷ content)) = map mark (str " |= ") ++ literal (c ∷ content) ∷ []
filter_tokens _ = []

filter-Reads :
    (content : Option Str) → IsText content → Reads (filter_text content) (filter_tokens content)
unfolding lex
filter-Reads none h = refl
filter-Reads (some []) h = refl
filter-Reads (some (c ∷ content)) h =
    marks-Reads (str " |= ") (quote (c ∷ content)) _ (omega arith) (
      ap (lex plain) (sym (append-nil (quote (c ∷ content))))
      ∙ quote-Reads (c ∷ content) [] [] (InPlane-IsScalar (c ∷ content) h) refl)

with_matchers-filter :
    (ms : List (Str × Str)) (content : Option Str)
    → IsText content
    → with_matchers ms (read_filter (filter_tokens content))
      ≡ some (record { matchers = ms; filter = given_text content })
with_matchers-filter [] none h = refl
with_matchers-filter [] (some []) h = refl
with_matchers-filter [] (some (c ∷ content)) h = rw (all-in_plane (c ∷ content) h) refl
with_matchers-filter (m ∷ ms) content h = ap (with_matcher m) (with_matchers-filter ms content h)

or_everything-All : (ms : List (Str × Str)) → All IsMatcher ms → All IsMatcher (or_everything ms)
or_everything-All [] h = omega arith
or_everything-All (m ∷ ms) h = h

-- Texts are given as filters whose code points are up to U+FFFF and no surrogates. The query that is
-- built is read as exactly what was asked: a matcher for each label that is given, with the given text
-- as its value, or the one that matches every namespace where none is given, and at most one line
-- filter, with the given text. No such text adds a matcher, a filter or another stage.
pub read_query-build_query :
    (namespace pod container content : Option Str)
    → IsText namespace
    → IsText pod
    → IsText container
    → IsText content
    → read_query (build_query namespace pod container content)
      ≡ some (asked namespace pod container content)
unfolding build_query
read_query-build_query namespace pod container content ns_text pod_text container_text is_text =
    let ns = given (str "namespace=") namespace in
    let ps = given (str "pod=") pod in
    let cs = given (str "container=") container in
    let ms = ns ++ ps ++ cs in
    let split : matcher (str "namespace") namespace
          ++ matcher (str "pod") pod
          ++ matcher (str "container") container
        ≡ map written ms =
      rw
        (
          matcher-given (str "namespace") namespace,
          matcher-given (str "pod") pod,
          matcher-given (str "container") container,
          map-append written (ns ++ ps) cs,
          map-append written ns ps,
        )
        refl in
    let all : All IsMatcher ms =
      All-append IsMatcher (ns ++ ps) cs
        (All-append IsMatcher ns ps
          (given-IsMatcher (str "namespace=") namespace (omega arith) ns_text)
          (given-IsMatcher (str "pod=") pod (omega arith) pod_text))
        (given-IsMatcher (str "container=") container (omega arith) container_text) in
    ap (λ ws. read_query (with_text (str "{" ++ join (str ", ") (or_any ws) ++ str "}") content))
      split
    ∙ ap read_query (query_text ms content)
    ∙ read_query-query_of ms (filter_text content) (filter_tokens content)
        (or_everything-All ms all) (filter-Reads content is_text)
    ∙ with_matchers-filter (or_everything ms) content is_text
