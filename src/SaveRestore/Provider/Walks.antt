-- ===== src/SaveRestore/Provider/Walks.antt =====
-- Where `resolve_folder` arrives, over a tree of nodes that does not change meanwhile.
use mathlib.Core.Path.{subst}
use argus_mcp_server.Effects.{Effect}
use argus_mcp_server.Errors.{ok}
use argus_mcp_server.Prelude.{
  Str, Bool, true, List, [], ◌∷◌, ◌++◌, some, ◌≡◌, refl, sym, ap, ◌∙◌, arith, keep, find, ◌==◌,
  str_eq, str_beq_iff, lower, Bool-cases, Option-cases, inl, inr,
}
use mathlib.Core.List.{append_assoc, append-nil}
use argus_mcp_server.SaveRestore.Nodes.{SnrNode, find_named}
use argus_mcp_server.SaveRestore.Provider.Folders.{walk, is_folder}
use argus_mcp_server.SaveRestore.Resolved.{find_holds, find-All, keep-All}

-- The first node whose name passes is the first of its own name.
find_same :
    (p : Str → Bool) (nodes : List SnrNode) (m : SnrNode)
    → find (λ (n : SnrNode). p n.name) nodes ≡ some m
    → find (λ (n : SnrNode). n.name == m.name) nodes ≡ some m
find_same p [] m e = absurd (ground arith)
find_same p (n ∷ nodes) m e = elim (Bool-cases (p n.name)) [
  | inl hit ↦
      let same : n ≡ m = ground (arith, e, hit) in
      subst (λ k. find (λ (j : SnrNode). j.name == k.name) (n ∷ nodes) ≡ some k) {x = n} {y = m}
        same (rw ((str_beq_iff n.name n.name).1 refl) refl)
  | inr differs ↦ elim (Bool-cases (n.name == m.name)) [
    | inr other ↦ rw other (find_same p nodes m (ground (arith, e, differs)))
    | inl same ↦ absurd (
        ground (
          arith,
          find_holds (λ (j : SnrNode). p j.name) nodes m (ground (arith, e, differs)),
          differs,
          ap p ((str_beq_iff n.name m.name).0 same),
        ))
  ]
]

find_named_again :
    (name : Str) (nodes : List SnrNode) (m : SnrNode)
    → find_named name nodes ≡ some m
    → find_named m.name nodes ≡ some m
unfolding find_named
find_named_again name nodes m e =
    elim (Option-cases (find (λ (n : SnrNode). n.name == name) nodes)) [
      | inl missing ↦
          rw
            (
              find_named,
              find_same (λ s. lower s == lower name) nodes m (ground (arith, e, missing)),
            )
            refl
      | inr (n, hit) ↦
          rw (find_named, find_same (λ s. s == name) nodes m (ground (arith, e, hit))) refl
    ]

module _ (children : Str → List SnrNode) where
  -- From `parent` to the folder `id`: each part names a folder among the children of the one before,
  -- in some spelling of its case, and `names` are their own names.
  abbrev pub IsWalk : (parts : List Str) (parent id : Str) (names : List Str) → Type 0
  IsWalk [] parent id names = (id ≡ parent) × (names ≡ [])
  IsWalk (part ∷ parts) parent id names =
      (n : SnrNode) × (rest : List Str) × (find_named part (keep is_folder (children parent))
        ≡ some n)
      × (lower n.name ≡ lower part)
      × (is_folder n ≡ true)
      × (names ≡ n.name ∷ rest)
      × IsWalk parts n.unique_id id rest

named_like :
    (part : Str) (nodes : List SnrNode) (n : SnrNode)
    → find_named part nodes ≡ some n
    → lower n.name ≡ lower part
unfolding find_named
named_like part nodes n e = elim (Option-cases (find (λ (j : SnrNode). j.name == part) nodes)) [
  | inl missing ↦ (str_beq_iff (lower n.name) (lower part)).0 (
      find_holds (λ (j : SnrNode). lower j.name == lower part) nodes n (ground (arith, e, missing)))
  | inr (m, hit) ↦ ap lower (
      (str_beq_iff n.name part).0
        (find_holds (λ (j : SnrNode). j.name == part) nodes n (ground (arith, e, hit))))
]

found_folder :
    (part : Str) (nodes : List SnrNode) (n : SnrNode)
    → find_named part (keep is_folder nodes) ≡ some n
    → is_folder n ≡ true
unfolding find_named
found_folder part nodes n e =
    elim (Option-cases (find (λ (j : SnrNode). j.name == part) (keep is_folder nodes))) [
      | inl missing ↦
          find-All (λ m. is_folder m ≡ true) (λ (j : SnrNode). lower j.name == lower part)
            (keep is_folder nodes) n (keep-All is_folder nodes) (ground (arith, e, missing))
      | inr (m, hit) ↦
          find-All (λ m. is_folder m ≡ true) (λ (j : SnrNode). j.name == part)
            (keep is_folder nodes) n (keep-All is_folder nodes) (ground (arith, e, hit))
    ]

module _ {W : Type 0} (repr : Str → Str) (children : Str → List SnrNode) where
  abbrev pub in_tree : Str → Effect W (List SnrNode)
  in_tree id w = (ok (children id), w)

  walk_again :
      (parts : List Str) (parent : Str) (walked : List Str) (id : Str) (names : List Str) (w w' : W)
      → walk repr in_tree parts parent walked w ≡ (ok (id, names), w')
      → (rest : List Str) × (names ≡ walked ++ rest)
        × (walk repr in_tree rest parent walked w ≡ (ok (id, names), w'))
  unfolding walk
  walk_again [] parent walked id names w w' e = ([], ground (arith, e, append-nil walked), e)
  walk_again (part ∷ parts) parent walked id names w w' e =
      elim (Option-cases (find_named part (keep is_folder (children parent)))) [
        | inl missing ↦ absurd (ground (arith, e, missing))
        | inr (n, hit) ↦
            let (rest, all, again) =
              walk_again parts n.unique_id (walked ++ n.name ∷ []) id names w w'
                (ground (arith, e, hit)) in
            (
              n.name ∷ rest,
              all ∙ append_assoc walked (n.name ∷ []) rest,
              ground (arith, again, find_named_again part (keep is_folder (children parent)) n hit),
            )
      ]

  walk_steps :
      (parts : List Str) (parent : Str) (walked : List Str) (id : Str) (names : List Str) (w w' : W)
      → walk repr in_tree parts parent walked w ≡ (ok (id, names), w')
      → (rest : List Str) × (names ≡ walked ++ rest) × IsWalk children parts parent id rest
  unfolding walk
  walk_steps [] parent walked id names w w' e =
      ([], ground (arith, e, append-nil walked), (ground (arith, e), refl))
  walk_steps (part ∷ parts) parent walked id names w w' e =
      elim (Option-cases (find_named part (keep is_folder (children parent)))) [
        | inl missing ↦ absurd (ground (arith, e, missing))
        | inr (n, hit) ↦
            let (rest, all, steps) =
              walk_steps parts n.unique_id (walked ++ n.name ∷ []) id names w w'
                (ground (arith, e, hit)) in
            (
              n.name ∷ rest,
              all ∙ append_assoc walked (n.name ∷ []) rest,
              (
                n,
                rest,
                hit,
                named_like part (keep is_folder (children parent)) n hit,
                found_folder part (children parent) n hit,
                refl,
                steps,
              ),
            )
      ]

  -- A walk that arrives went from folder to folder, each among the children of the one before and
  -- named as the path's part but for its case; and the names that it answers lead, as a path of their
  -- own, to the same folder again.
  pub walk-IsWalk :
      (parts : List Str) (parent id : Str) (names : List Str) (w w' : W)
      → walk repr in_tree parts parent [] w ≡ (ok (id, names), w')
      → IsWalk children parts parent id names
        × (walk repr in_tree names parent [] w ≡ (ok (id, names), w'))
  walk-IsWalk parts parent id names w w' e =
      let (rest, all, again) = walk_again parts parent [] id names w w' e in
      let (rest', all', steps) = walk_steps parts parent [] id names w w' e in
      (
        subst (λ ns. IsWalk children parts parent id ns) {x = rest'} {y = names} (sym all') steps,
        subst (λ ns. walk repr in_tree ns parent [] w ≡ (ok (id, names), w')) {x = rest} {y = names}
            (sym all) again,
      )
