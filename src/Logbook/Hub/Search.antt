-- ===== src/Logbook/Hub/Search.antt =====
-- What a search of argus/providers/logbook/knowledge_hub.py answers of the entries it found.
use mathlib.Core.List.{Perm}
use mathlib.Core.Path.{subst}
use argus_mcp_server.Dict.{Dict}
use argus_mcp_server.Errors.{Result, ok, raise}
use argus_mcp_server.KnowledgeHub.{for_each_workspace}
use argus_mcp_server.Logbook.Hub.{
  matches, created_key, gathered, newest_matching, first_tag, answered, search_entries,
}
use argus_mcp_server.Logbook.Hub.Header.{HubEntry}
use argus_mcp_server.Sorting.{
  sort_greatest, IsGreatestFirst, sort-IsGreatestFirst, sort-Perm, sort-All,
}
use argus_mcp_server.Prelude.{
  ℕ, zero, suc, ◌≤◌, Str, Bool, true, List, [], ◌∷◌, ◌++◌, Option, or_else, ◌≡◌, refl, sym, ap, ◌⊎◌,
  arith, All, Bool-cases, inl, inr, keep, take, drop, length, length-take-le,
}

module _ {A : Type 0} where
  keep-All : (p : A → Bool) (xs : List A) → All (λ x. p x ≡ true) (keep p xs)
  keep-All p [] = tt
  keep-All p (x ∷ xs) = elim (Bool-cases (p x)) [
    | inl passes ↦ rw passes (passes, keep-All p xs)
    | inr fails ↦ rw fails (keep-All p xs)
  ]

  take-All : (P : A → Type 0) (n : ℕ) (xs : List A) → All P xs → All P (take n xs)
  take-All P zero xs h = tt
  take-All P (suc n) [] h = tt
  take-All P (suc n) (x ∷ xs) h = (h.0, take-All P n xs h.1)

  take-drop : (n : ℕ) (xs : List A) → take n xs ++ drop n xs ≡ xs
  take-drop zero xs = refl
  take-drop (suc n) [] = refl
  take-drop (suc n) (x ∷ xs) = ap (λ ys. x ∷ ys) (take-drop n xs)

  -- Where something is left out, as many as allowed are taken.
  take_full : (n : ℕ) (xs : List A) → (drop n xs ≡ []) ⊎ (length (take n xs) ≡ n)
  take_full zero xs = inr refl
  take_full (suc n) [] = inl refl
  take_full (suc n) (x ∷ xs) = elim (take_full n xs) [
    | inl none_left ↦ inl none_left
    | inr full ↦ inr (ap suc full)
  ]

module _ (logbook : Option Str) (tags : List Str) (since : Option ℕ) (limit : ℕ) where
  -- The answer, and what is left out of it: together the entries that match, newest first.
  abbrev pub IsAnswer : (found answer left : List HubEntry) → Type 0
  IsAnswer found answer left =
      (length answer ≤ limit)
      × ((left ≡ []) ⊎ (length answer ≡ limit))
      × All (λ e. matches logbook tags since e ≡ true) answer
      × Perm (keep (matches logbook tags since) found) (answer ++ left)
      × IsGreatestFirst created_key (answer ++ left)

  newest_matching-IsAnswer :
      (found : List HubEntry)
      → (left : List HubEntry) × IsAnswer found
          (newest_matching logbook tags since limit found)
          left
  unfolding newest_matching
  newest_matching-IsAnswer found =
      let held = keep (matches logbook tags since) found in
      let sorted = sort_greatest created_key held in
      let whole = sym (take-drop limit sorted) in
      (
        drop limit sorted,
        (
          length-take-le limit sorted,
          take_full limit sorted,
          take-All _ limit sorted (sort-All created_key _ held (keep-All _ found)),
          subst (λ xs. Perm held xs) whole (sort-Perm created_key held),
          subst (λ xs. IsGreatestFirst created_key xs) whole
              (sort-IsGreatestFirst created_key held),
        ),
      )

  module _ (content : Option Str)
      (fn : (query : Str) (limit : ℕ) → Str → Result (List HubEntry)) where
    answered-IsAnswer :
        (workspaces : List Str) (r : Result (Dict (List HubEntry) × Dict Str))
        (answer : List HubEntry)
        → answered (newest_matching logbook tags since limit) workspaces r ≡ ok answer
        → (results : Dict (List HubEntry)) × (errors : Dict Str) × (left : List HubEntry) × (r
            ≡ ok (results, errors))
          × IsAnswer (gathered results workspaces) answer left
    answered-IsAnswer workspaces (raise e) answer h = absurd (ground arith)
    answered-IsAnswer workspaces (ok (results, errors)) answer h =
        let (left, is) = newest_matching-IsAnswer (gathered results workspaces) in
        (
          results,
          errors,
          left,
          refl,
          subst (λ a. IsAnswer (gathered results workspaces) a left) (ground arith) is,
        )

    -- A search that answers asked in every workspace of the client for the text, or for the first tag
    -- where none is given. Its answer has no more than `limit` entries, each one matching; with those
    -- left out it is the entries found that match, newest first, and something is left out only
    -- where the answer has `limit` entries.
    pub search_entries-IsAnswer :
        (ids : Result (List Str)) (answer : List HubEntry)
        → search_entries logbook tags content since limit ids fn ≡ ok answer
        → (workspaces : List Str) × (results : Dict (List HubEntry)) × (errors : Dict Str)
          × (left : List HubEntry) × (ids ≡ ok workspaces)
          × (for_each_workspace workspaces (fn (or_else content (first_tag tags)) limit)
              ≡ ok (results, errors))
          × IsAnswer (gathered results workspaces) answer left
    unfolding search_entries
    search_entries-IsAnswer (raise e) answer h = absurd (ground arith)
    search_entries-IsAnswer (ok workspaces) answer h =
        let (results, errors, left, asked, is) = answered-IsAnswer workspaces _ answer h in
        (workspaces, results, errors, left, refl, asked, is)
