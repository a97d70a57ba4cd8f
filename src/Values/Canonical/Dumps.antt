-- ===== src/Values/Canonical/Dumps.antt =====
-- What json.dumps writes for a value of JSON ends nowhere before its end, and what the canonical text
-- of a dictionary determines.
use argus_mcp_server.Dict
use argus_mcp_server.Dict.{Dict}
use argus_mcp_server.Prelude.{
  ℕ, zero, suc, ◌+◌, ◌/◌, ◌%◌, Str, str, ◌++◌, true, false, [], ◌∷◌, none, some, All, join, ltb,
  str_leb, if◌then◌else◌, show, show_from, ◌==◌, str_eq, str_beq_iff, ◌≡◌, ◌≢◌, refl, ap, sym, ◌∙◌,
  arith, Bool-cases, inl, inr,
}
use argus_mcp_server.Values.{
  ℤ, pos, negsuc, Value, Items, Fields, Float, null, bool, int, float, text, list, dict, object,
  other, nil, cons, end, field, finite, nan, inf, neg_inf, show_int,
}
use argus_mcp_server.Values.Canonical.{
  quote, insert_entry, sort_entries, write_sorted, write_object, dumps, dumps_items, dumps_fields,
  dumps_dict,
}
use argus_mcp_server.Values.Canonical.Literals.{IsScalar}
use argus_mcp_server.Values.Canonical.Cut.{IsAtom, atoms-Passes, Passes, quote-Passes}
use argus_mcp_server.Values.Canonical.Brackets.{Inner, Passes-Inner, join-Inner, list-Passes}
use mathlib.Core.Option
use argus_mcp_server.Values.Canonical.Order.{map_values, get-map_values, map_values-IsDict}
use argus_mcp_server.Values.Canonical.Members.{
  head, IsMember, quote-injective, write_sorted-injective, write_sorted-Passes,
}

abbrev IsNumber : Float → Type 0
IsNumber (finite r) = All IsAtom r
IsNumber _ = Unit

-- A value that came as JSON: the text of a float has no quote, comma, colon or bracket, and a text or
-- a key is of code points that are no surrogates.
abbrev mutual
  pub IsJson : Value → Type 0
  IsJson (float f) = IsNumber f
  IsJson (list xs) = AreJson xs
  IsJson (dict fs) = HasJson fs
  IsJson (text s) = All IsScalar s
  IsJson (object shown fs) = ⊥
  IsJson (other shown) = ⊥
  IsJson _ = Unit

  pub AreJson : Items → Type 0
  AreJson nil = Unit
  AreJson (cons x xs) = IsJson x × AreJson xs

  pub HasJson : Fields → Type 0
  HasJson end = Unit
  HasJson (field k v fs) = (All IsScalar k × IsJson v) × HasJson fs

module _ {V : Type 0} (P : Str × V → Type 0) where
  insert_entry-All :
      (k : Str) (v : V) (d : Dict V) → P (k, v) → All P d → All P (insert_entry k v d)
  unfolding insert_entry
  insert_entry-All k v [] p h = (p, tt)
  insert_entry-All k v ((j, w) ∷ d) p h = elim (Bool-cases (str_leb k j)) [
    | inl before ↦ rw before (p, h)
    | inr after ↦ rw after (h.0, insert_entry-All k v d p h.1)
  ]

  sort_entries-All : (d : Dict V) → All P d → All P (sort_entries d)
  unfolding sort_entries
  sort_entries-All [] h = tt
  sort_entries-All ((k, v) ∷ d) h =
      insert_entry-All k v (sort_entries d) h.0 (sort_entries-All d h.1)

show_from-All : (fuel n : ℕ) (rest : Str) → All IsAtom rest → All IsAtom (show_from fuel n rest)
unfolding show_from
show_from-All zero n rest h = h
show_from-All (suc fuel) n rest h =
    let digits : All IsAtom ((48 + n % 10) ∷ rest) = ((omega arith), h) in
    elim (Bool-cases (ltb n 10)) [
      | inl small ↦ rw small digits
      | inr large ↦ rw large (show_from-All fuel (n / 10) ((48 + n % 10) ∷ rest) digits)
    ]

show-All : (n : ℕ) → All IsAtom (show n)
unfolding show
show-All n = show_from-All (suc n) n [] tt

show_int-Passes : (i : ℤ) → Passes (show_int i)
show_int-Passes (pos n) = atoms-Passes (show n) (show-All n)
show_int-Passes (negsuc n) = atoms-Passes (str "-" ++ show (suc n)) (omega arith, show-All (suc n))

mutual
  unfolding dumps write_object

  pub dumps-Passes : (v : Value) → IsJson v → Passes (dumps v)
  dumps-Passes null h = atoms-Passes (str "null") (omega arith)
  dumps-Passes (bool true) h = atoms-Passes (str "true") (omega arith)
  dumps-Passes (bool false) h = atoms-Passes (str "false") (omega arith)
  dumps-Passes (int i) h = show_int-Passes i
  dumps-Passes (float (finite r)) h = atoms-Passes r h
  dumps-Passes (float nan) h = atoms-Passes (str "NaN") (omega arith)
  dumps-Passes (float inf) h = atoms-Passes (str "Infinity") (omega arith)
  dumps-Passes (float neg_inf) h = atoms-Passes (str "-Infinity") (omega arith)
  dumps-Passes (text s) h = quote-Passes s
  dumps-Passes (list xs) h =
      list-Passes (join (str ",") (dumps_items xs)) (join-Inner (dumps_items xs) (items-Inner xs h))
  dumps-Passes (dict fs) h =
      write_sorted-Passes (sort_entries (dumps_fields fs))
        (sort_entries-All IsMember (dumps_fields fs) (fields-IsMember fs h))
  dumps-Passes (object shown fs) h = absurd h
  dumps-Passes (other shown) h = absurd h

  items-Inner : (xs : Items) → AreJson xs → All Inner (dumps_items xs)
  items-Inner nil h = tt
  items-Inner (cons x xs) h = (Passes-Inner (dumps x) (dumps-Passes x h.0), items-Inner xs h.1)

  fields-IsMember : (fs : Fields) → HasJson fs → All IsMember (dumps_fields fs)
  fields-IsMember end h = tt
  fields-IsMember (field k v fs) h = ((h.0.0, dumps-Passes v h.0.1), fields-IsMember fs h.1)

-- Sorting the entries of a dictionary keeps its lookups.
get-insert_entry :
    {V : Type 0} (k : Str) (v : V) (d : Dict V) (j : Str)
    → Dict.get d k ≡ none
    → Dict.get (insert_entry k v d) j ≡ (if k == j then some v else Dict.get d j)
unfolding insert_entry Dict.get
get-insert_entry k v [] j h = refl
get-insert_entry k v ((i, w) ∷ d) j h =
    ground (arith, h, get-insert_entry k v d j, str_beq_iff i j, str_beq_iff k j, str_beq_iff i k)

get-sort_entries :
    {V : Type 0} (d : Dict V) (k : Str) → Dict.IsDict d → Dict.get (sort_entries d) k ≡ Dict.get d k
unfolding sort_entries Dict.get
get-sort_entries [] k h = refl
get-sort_entries ((j, v) ∷ d) k h = ground (
  arith,
  h,
  get-insert_entry j v (sort_entries d) k,
  get-sort_entries d j h.1,
  get-sort_entries d k h.1,
  Dict.get_of_has d j,
)

-- A text is not written as any other value of JSON is.
atoms-quote : (t s : Str) → All IsAtom t → t ≢ quote s
unfolding quote
atoms-quote [] s h = λ e. let h = ap head e in omega (arith, h)
atoms-quote (c ∷ t) s h = λ e. h.0.0 (ap head e)

pub dumps-text : (v : Value) (s : Str) → IsJson v → All IsScalar s → dumps v ≡ quote s → v ≡ text s
unfolding dumps write_object write_sorted quote
dumps-text null s h hs e = absurd (atoms-quote (str "null") s (omega arith) e)
dumps-text (bool true) s h hs e = absurd (atoms-quote (str "true") s (omega arith) e)
dumps-text (bool false) s h hs e = absurd (atoms-quote (str "false") s (omega arith) e)
dumps-text (int (pos n)) s h hs e = absurd (atoms-quote (show n) s (show-All n) e)
dumps-text (int (negsuc n)) s h hs e =
    absurd (atoms-quote (str "-" ++ show (suc n)) s (omega arith, show-All (suc n)) e)
dumps-text (float (finite r)) s h hs e = absurd (atoms-quote r s h e)
dumps-text (float nan) s h hs e = absurd (atoms-quote (str "NaN") s (omega arith) e)
dumps-text (float inf) s h hs e = absurd (atoms-quote (str "Infinity") s (omega arith) e)
dumps-text (float neg_inf) s h hs e = absurd (atoms-quote (str "-Infinity") s (omega arith) e)
dumps-text (text t) s h hs e = ap text (quote-injective t s h hs e)
dumps-text (list xs) s h hs e = absurd (let k = ap head e in omega (arith, k))
dumps-text (dict fs) s h hs e = absurd (let k = ap head e in omega (arith, k))
dumps-text (object shown fs) s h hs e = absurd h
dumps-text (other shown) s h hs e = absurd h

-- A dictionary of JSON.
abbrev pub IsJsonDict : Dict Value → Type 0
IsJsonDict d = Dict.IsDict d × All (λ (e : Str × Value). All IsScalar e.0 × IsJson e.1) d

written-IsMember :
    (d : Dict Value)
    → All (λ (e : Str × Value). All IsScalar e.0 × IsJson e.1) d
    → All IsMember (map_values dumps d)
written-IsMember [] h = tt
written-IsMember ((k, v) ∷ d) h = ((h.0.0, dumps-Passes v h.0.1), written-IsMember d h.1)

pub sorted-IsMember :
    (d : Dict Value) → IsJsonDict d → All IsMember (sort_entries (map_values dumps d))
sorted-IsMember d h = sort_entries-All IsMember (map_values dumps d) (written-IsMember d h.1)

-- Two dictionaries with one canonical text hold values of one text under every key.
pub dumps_dict-injective :
    (d e : Dict Value)
    → IsJsonDict d
    → IsJsonDict e
    → dumps_dict d ≡ dumps_dict e
    → (k : Str) → Option.map dumps (Dict.get d k) ≡ Option.map dumps (Dict.get e k)
unfolding dumps_dict write_object
dumps_dict-injective d e hd he same k =
    let sorted =
      write_sorted-injective (sort_entries (map_values dumps d)) (sort_entries (map_values dumps e))
        (sorted-IsMember d hd) (sorted-IsMember e he) same in
    sym (get-map_values dumps d k)
    ∙ sym (get-sort_entries (map_values dumps d) k (map_values-IsDict dumps d hd.0))
    ∙ ap (λ x. Dict.get x k) sorted
    ∙ get-sort_entries (map_values dumps e) k (map_values-IsDict dumps e he.0)
    ∙ get-map_values dumps e k
