-- ===== src/Values/Canonical/Members.antt =====
-- The members of a written dictionary are determined by its text.
use mathlib.Core.List.{append_assoc}
use mathlib.Core.Path.{subst}
use argus_mcp_server.Dict.{Dict}
use argus_mcp_server.Prelude.{
  ℕ, Str, str, List, [], ◌∷◌, ◌++◌, Option, some, All, map, join, ◌≡◌, refl, ap, sym, ◌∙◌, arith,
}
use argus_mcp_server.Values.Canonical.{quote, member, write_sorted}
use argus_mcp_server.Values.Canonical.Lexer.{Token, literal, plain, lex}
use argus_mcp_server.Values.Canonical.Literals.{IsScalar, quote-Reads}
use argus_mcp_server.Values.Canonical.Cut.{Passes, quote-Passes}
use argus_mcp_server.Values.Canonical.Brackets.{
  Inner, Inner-then, Passes-Inner, join-Inner, dict-Passes, cut_unique,
}

-- The value of the first literal.
abbrev first_value : Option (List Token) → Str
first_value (some (literal s ∷ ts)) = s
first_value _ = []

pub quote-injective : (s t : Str) → All IsScalar s → All IsScalar t → quote s ≡ quote t → s ≡ t
unfolding lex
quote-injective s t hs ht same = ap first_value (
    sym (quote-Reads s [] [] hs refl)
    ∙ ap (λ u. lex plain (u ++ [])) same
    ∙ quote-Reads t [] [] ht refl)

-- A key of code points that are no surrogates, and the text of a value.
abbrev pub IsMember : Str × Str → Type 0
IsMember m = All IsScalar m.0 × Passes m.1

-- What follows the value of a member.
abbrev behind : Dict Str → (rest : Str) → Str
behind [] rest = 125 ∷ rest
behind (m ∷ d) rest = 44 ∷ (join (str ",") (map member (m ∷ d)) ++ 125 ∷ rest)

members_step :
    (k v : Str) (d : Dict Str) (rest : Str)
    → join (str ",") (map member ((k, v) ∷ d)) ++ 125 ∷ rest ≡ quote k ++ 58 ∷ (v ++ behind d rest)
unfolding join
members_step k v [] rest =
    append_assoc (quote k ++ str ":") v (125 ∷ rest)
    ∙ append_assoc (quote k) (str ":") (v ++ 125 ∷ rest)
members_step k v (m ∷ d) rest =
    let others = join (str ",") (map member (m ∷ d)) in
    append_assoc (member (k, v) ++ str ",") others (125 ∷ rest)
    ∙ append_assoc (member (k, v)) (str ",") (others ++ 125 ∷ rest)
    ∙ append_assoc (quote k ++ str ":") v (44 ∷ (others ++ 125 ∷ rest))
    ∙ append_assoc (quote k) (str ":") (v ++ 44 ∷ (others ++ 125 ∷ rest))

abbrev pub head : Str → ℕ
head [] = 0
head (c ∷ s) = c

abbrev tail : Str → Str
tail [] = []
tail (c ∷ s) = s

value_unique :
    (v w : Str) (d e : Dict Str) (r s : Str)
    → Passes v
    → Passes w
    → v ++ behind d r ≡ w ++ behind e s
    → (v ≡ w) × (behind d r ≡ behind e s)
value_unique v w [] [] r s hv hw = cut_unique v w 125 125 r s hv hw refl refl
value_unique v w [] (n ∷ e) r s hv hw = cut_unique v w 125 44 r _ hv hw refl refl
value_unique v w (m ∷ d) [] r s hv hw = cut_unique v w 44 125 _ s hv hw refl refl
value_unique v w (m ∷ d) (n ∷ e) r s hv hw = cut_unique v w 44 44 _ _ hv hw refl refl

behind_unique :
    (d e : Dict Str) (r s : Str)
    → (join (str ",") (map member d) ++ 125 ∷ r ≡ join (str ",") (map member e) ++ 125 ∷ s → d ≡ e)
    → behind d r ≡ behind e s
    → d ≡ e
behind_unique [] [] r s rest same = refl
behind_unique [] (n ∷ e) r s rest same = absurd (let h = ap head same in omega (arith, h))
behind_unique (m ∷ d) [] r s rest same = absurd (let h = ap head same in omega (arith, h))
behind_unique (m ∷ d) (n ∷ e) r s rest same = rest (ap tail same)

members-injective :
    (d e : Dict Str) (r s : Str)
    → All IsMember d
    → All IsMember e
    → join (str ",") (map member d) ++ 125 ∷ r ≡ join (str ",") (map member e) ++ 125 ∷ s
    → d ≡ e
unfolding join quote
members-injective [] [] r s hd he same = refl
members-injective [] ((k, v) ∷ e) r s hd he same =
    absurd (let h = ap head (same ∙ members_step k v e s) in omega (arith, h))
members-injective ((k, v) ∷ d) [] r s hd he same =
    absurd (let h = ap head (sym (members_step k v d r) ∙ same) in omega (arith, h))
members-injective ((k, v) ∷ d) ((j, w) ∷ e) r s hd he same =
    let whole = sym (members_step k v d r) ∙ same ∙ members_step j w e s in
    let (keys, after) =
      cut_unique (quote k) (quote j) 58 58 (v ++ behind d r) (w ++ behind e s) (quote-Passes k)
        (quote-Passes j) refl refl whole in
    let (values, others) = value_unique v w d e r s hd.0.1 he.0.1 (ap tail after) in
    let key = quote-injective k j hd.0.0 he.0.0 keys in
    let rest = behind_unique d e r s (members-injective d e r s hd.1 he.1) others in
    λ i. (key i, values i) ∷ rest i

-- A written dictionary gives its members.
pub write_sorted-injective :
    (d e : Dict Str) → All IsMember d → All IsMember e → write_sorted d ≡ write_sorted e → d ≡ e
unfolding write_sorted
write_sorted-injective d e hd he same = members-injective d e [] [] hd he (ap tail same)

members-Inner : (d : Dict Str) → All IsMember d → All Inner (map member d)
members-Inner [] h = tt
members-Inner ((k, v) ∷ d) h = (
  subst Inner (sym (append_assoc (quote k) (str ":") v)) (
      Inner-then (quote k) v 58 refl (Passes-Inner (quote k) (quote-Passes k))
        (Passes-Inner v h.0.1)),
  members-Inner d h.1,
)

pub write_sorted-Passes : (d : Dict Str) → All IsMember d → Passes (write_sorted d)
unfolding write_sorted
write_sorted-Passes d h =
    dict-Passes (join (str ",") (map member d)) (join-Inner (map member d) (members-Inner d h))
