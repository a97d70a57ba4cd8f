-- ===== src/Loki/Reader.antt =====
-- A reader of LogQL queries of one selector and at most one line filter, that does not know how
-- argus/providers/loki/loki.py builds them. Its texts are ASCII, as json.dumps writes them, so that a
-- character above U+FFFF, or a surrogate, can only stand in a literal as an escape of a surrogate: the
-- literals of LogQL, which are those of Go, have no such escape, and the other escapes of JSON.
use argus_mcp_server.Prelude.{
  ℕ, Str, ◌&&◌, List, [], ◌∷◌, Option, none, some, if◌then◌else◌, nat_beq, leb, all, ◌||◌, Bool,
}
use argus_mcp_server.Values.Canonical.Lexer.{Token, mark, literal, plain, onto, lex}

-- A query: its matchers, each the label with its operator and the value, and the line filter.
pub record LogQuery : Type 0 where
  pub matchers : List (Str × Str)
  pub filter : Option Str

abbrev pub with_matcher : Str × Str → Option LogQuery → Option LogQuery
with_matcher m none = none
with_matcher m (some q) = some (record q { matchers = m ∷ q.matchers })

abbrev pub in_plane : ℕ → Bool
in_plane c = leb c 0xd7ff || leb 0xe000 c && leb c 0xffff

-- What follows a literal, where it is one of LogQL.
abbrev pub go_literal : (value : Str) → Option LogQuery → Option LogQuery
go_literal value q = if all in_plane value then q else none

-- Behind the selector: nothing, or ` |= ` and one literal.
abbrev pub read_filter : List Token → Option LogQuery
read_filter [] = some (record { matchers = []; filter = none })
read_filter (mark a ∷ mark b ∷ mark c ∷ mark d ∷ literal value ∷ []) =
    if nat_beq a 32 && nat_beq b 124 && nat_beq c 61 && nat_beq d 32
    then go_literal value (some (record { matchers = []; filter = some value }))
    else none
read_filter _ = none

-- Behind a matcher: another one, or the end of the selector.
abbrev pub behind : ℕ → Option LogQuery → List Token → Option LogQuery
behind c more ts = if nat_beq c 44 then more else (if nat_beq c 125 then read_filter ts else none)

-- In the selector: the label that was read stands last character first. A comma is followed by a
-- space, and a brace closes the selector.
unfoldable pub read_matchers : (label : Str) → List Token → Option LogQuery
read_matchers label (literal value ∷ mark c ∷ ts) =
    go_literal value (with_matcher (onto label [], value) (behind c (read_matchers [] ts) ts))
read_matchers label (mark c ∷ ts) = read_matchers (if nat_beq c 32 then label else c ∷ label) ts
read_matchers label _ = none

abbrev pub read_selector : Option (List Token) → Option LogQuery
read_selector (some (mark c ∷ ts)) = if nat_beq c 123 then read_matchers [] ts else none
read_selector _ = none

unfoldable pub read_query : Str → Option LogQuery
unfolding lex read_matchers
read_query s = read_selector (lex plain s)
