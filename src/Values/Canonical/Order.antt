-- ===== src/Values/Canonical/Order.antt =====
-- The order in which a dictionary was filled does not show in its canonical text.
use argus_mcp_server.Dict
use argus_mcp_server.Dict.{Dict, get-remove}
use argus_mcp_server.Prelude.{
  map, Str, true, false, [], ◌∷◌, none, some, ◌≡◌, ◌≢◌, refl, ap, ◌∙◌, sym, arith, ◌==◌, str_eq,
  str_leb, str_beq_iff, str_beq_self, inl, inr, Bool-cases,
}
use mathlib.Core.Option
use argus_mcp_server.Values.{Value}
use argus_mcp_server.Values.Canonical.{
  insert_entry, sort_entries, write_sorted, write_object, dumps, dumps_dict,
}

str_leb_total : (s t : Str) → str_leb s t ≡ false → str_leb t s ≡ true
unfolding str_leb
str_leb_total [] t h = cc
str_leb_total (c ∷ s) [] h = refl
str_leb_total (c ∷ s) (d ∷ t) h = ground (arith, str_leb_total s t)

str_leb_antisym : (s t : Str) → str_leb s t ≡ true → str_leb t s ≡ true → s ≡ t
unfolding str_leb
str_leb_antisym [] [] h k = refl
str_leb_antisym [] (d ∷ t) h k = cc
str_leb_antisym (c ∷ s) [] h k = cc
str_leb_antisym (c ∷ s) (d ∷ t) h k = ground (arith, str_leb_antisym s t)

str_leb_trans : (s t u : Str) → str_leb s t ≡ true → str_leb t u ≡ true → str_leb s u ≡ true
unfolding str_leb
str_leb_trans [] t u h k = refl
str_leb_trans (c ∷ s) [] u h k = cc
str_leb_trans (c ∷ s) (d ∷ t) [] h k = cc
str_leb_trans (c ∷ s) (d ∷ t) (e ∷ u) h k = ground (arith, str_leb_trans s t u)

module _ {ℓ} {V : Type ℓ} where
  insert_entry_comm :
      (k j : Str) (v w : V) (d : Dict V)
      → k ≢ j
      → insert_entry k v (insert_entry j w d) ≡ insert_entry j w (insert_entry k v d)
  unfolding insert_entry
  insert_entry_comm k j v w [] ne = ground (arith, str_leb_total k j, str_leb_antisym k j, ne)
  insert_entry_comm k j v w ((i, u) ∷ d) ne = ground (
    arith,
    insert_entry_comm k j v w d,
    str_leb_total k j,
    str_leb_antisym k j,
    str_leb_trans k j i,
    str_leb_trans j k i,
    str_leb_total k i,
    str_leb_total j i,
    ne,
  )

  remove_absent : (d : Dict V) (k : Str) → Dict.get d k ≡ none → Dict.remove d k ≡ d
  unfolding Dict.get Dict.remove
  remove_absent [] k h = refl
  remove_absent ((j, w) ∷ d) k h = ground (arith, remove_absent d k)

  -- An entry can be taken out first and put in its place last.
  sort-remove :
      (d : Dict V) (k : Str) (v : V)
      → Dict.IsDict d
      → Dict.get d k ≡ some v
      → sort_entries d ≡ insert_entry k v (sort_entries (Dict.remove d k))
  unfolding sort_entries Dict.get Dict.remove
  sort-remove [] k v h e = cc
  sort-remove ((j, w) ∷ d) k v h e = elim (Bool-cases (j == k)) [
    | inl same ↦ ground (
      arith,
      remove_absent d k,
      Dict.get_of_has d k,
      str_beq_iff j k,
      ap (λ x. Dict.has d x) ((str_beq_iff j k).0 same),
    )
    | inr other ↦ ground (
      arith,
      sort-remove d k v h.1,
      insert_entry_comm j k w v (sort_entries (Dict.remove d k)),
      str_beq_iff j k,
    )
  ]

  -- Two dictionaries with the same lookups, filled in any order.
  abbrev pub SameLookups : Dict V → Dict V → Type ℓ
  SameLookups d e = (k : Str) → Dict.get d k ≡ Dict.get e k

  -- They are sorted into the same list of entries.
  pub sort-SameLookups :
      (d e : Dict V)
      → Dict.IsDict d
      → Dict.IsDict e
      → SameLookups d e
      → sort_entries d ≡ sort_entries e
  unfolding sort_entries Dict.get
  sort-SameLookups [] [] hd he same = refl
  sort-SameLookups [] ((j, w) ∷ e) hd he same = ground (arith, same j, str_beq_iff j j)
  sort-SameLookups ((k, v) ∷ d) e hd he same =
      let found : Dict.get e k ≡ some v = ground (arith, same k, str_beq_self k) in
      let rest : SameLookups d (Dict.remove e k) =
        λ j. ground (arith, same j, get-remove e k j, str_beq_iff k j, Dict.get_of_has d k hd.0) in
      ap (insert_entry k v)
        (sort-SameLookups d (Dict.remove e k) hd.1 (Dict.remove-IsDict e k he) rest)
      ∙ sym (sort-remove e k v he found)

module _ {ℓ κ} {V : Type ℓ} {W : Type κ} (f : V → W) where
  abbrev pub map_values : Dict V → Dict W
  map_values d = map (λ e. (e.0, f e.1)) d

  pub get-map_values :
      (d : Dict V) (k : Str) → Dict.get (map_values d) k ≡ Option.map f (Dict.get d k)
  unfolding Dict.get
  get-map_values [] k = refl
  get-map_values ((j, v) ∷ d) k = ground (arith, get-map_values d k)

  pub map_values-IsDict : (d : Dict V) → Dict.IsDict d → Dict.IsDict (map_values d)
  map_values-IsDict [] h = tt
  map_values-IsDict ((j, v) ∷ d) h =
      (ground (arith, get-map_values d j, h.0), map_values-IsDict d h.1)

-- One dictionary has one canonical text, however it was filled.
pub dumps_dict-SameLookups :
    (d e : Dict Value)
    → Dict.IsDict d
    → Dict.IsDict e
    → SameLookups d e
    → dumps_dict d ≡ dumps_dict e
unfolding dumps_dict write_object
dumps_dict-SameLookups d e hd he same = ap write_sorted (
    sort-SameLookups (map_values dumps d) (map_values dumps e) (map_values-IsDict dumps d hd)
      (map_values-IsDict dumps e he)
      λ k. rw (get-map_values dumps d k, get-map_values dumps e k, same k))
