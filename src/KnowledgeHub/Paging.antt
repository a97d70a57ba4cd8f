-- ===== src/KnowledgeHub/Paging.antt =====
-- Every record of the hub is listed once.
use mathlib.Core.Path.{subst}
use argus_mcp_server.Dict
use argus_mcp_server.Dict.{Dict}
use argus_mcp_server.Inventory.{BeamlineDevice}
use argus_mcp_server.Prelude.{
  Str, ◌++◌, Bool, true, false, ◌||◌, List, [], ◌∷◌, Option, none, some, any, if◌then◌else◌, ◌==◌,
  str_eq, str_beq_iff, ◌≡◌, refl, sym, arith, Bool-cases, Option-cases, inl, inr,
}
use argus_mcp_server.KnowledgeHub.Inventory.{list_new, list_all, matches}

-- No uid stands twice, and none of those given stands among them.
abbrev pub Distinct : List (Str × BeamlineDevice) → Type 0
Distinct [] = Unit
Distinct (e ∷ es) = (any (λ (f : Str × BeamlineDevice). f.0 == e.0) es ≡ false) × Distinct es

abbrev pub has_uid : List (Str × BeamlineDevice) → Str → Bool
has_uid es uid = any (λ (f : Str × BeamlineDevice). f.0 == uid) es

abbrev pub saw : List Str → Str → Bool
saw seen uid = any (λ u. u == uid) seen

has_uid-append :
    (xs ys : List (Str × BeamlineDevice)) (uid : Str)
    → has_uid (xs ++ ys) uid ≡ (has_uid xs uid || has_uid ys uid)
has_uid-append [] ys uid = refl
has_uid-append (x ∷ xs) ys uid = ground (arith, has_uid-append xs ys uid)

Distinct-append :
    (xs ys : List (Str × BeamlineDevice))
    → Distinct xs
    → Distinct ys
    → ((uid : Str) → has_uid xs uid ≡ true → has_uid ys uid ≡ false)
    → Distinct (xs ++ ys)
Distinct-append [] ys dx dy apart = dy
Distinct-append (x ∷ xs) ys dx dy apart = (
  ground (arith, has_uid-append xs ys x.0, dx.0, apart x.0, str_beq_iff x.0 x.0),
  Distinct-append xs ys dx.1 dy (λ uid h. apart uid (ground (arith, h))),
)

module _ (devgroup devfunc zone : Option Str) where
  -- What a workspace lists was not seen before it, and is seen after it.
  abbrev IsNew : List Str → List Str × List (Str × BeamlineDevice) → Type 0
  IsNew seen r =
      Distinct r.1
      × ((uid : Str) → saw seen uid ≡ true → saw r.0 uid ≡ true)
      × ((uid : Str) → has_uid r.1 uid ≡ true → saw seen uid ≡ false)
      × ((uid : Str) → has_uid r.1 uid ≡ true → saw r.0 uid ≡ true)

  abbrev add_record :
      Bool → Str × BeamlineDevice → List (Str × BeamlineDevice) → List (Str × BeamlineDevice)
  add_record true e es = e ∷ es
  add_record false e es = es

  list_new_old :
      (seen : List Str) (e : Str × BeamlineDevice) (es : List (Str × BeamlineDevice))
      → saw seen e.0 ≡ true
      → list_new devgroup devfunc zone seen (e ∷ es) ≡ list_new devgroup devfunc zone seen es
  unfolding list_new
  list_new_old seen e es old = rw (old, list_new) refl

  list_new_first :
      (seen : List Str) (e : Str × BeamlineDevice) (es : List (Str × BeamlineDevice))
      → saw seen e.0 ≡ false
      → list_new devgroup devfunc zone seen (e ∷ es) ≡ (
        (list_new devgroup devfunc zone (e.0 ∷ seen) es).0,
        if matches devgroup devfunc zone e
            then e ∷ (list_new devgroup devfunc zone (e.0 ∷ seen) es).1
            else (list_new devgroup devfunc zone (e.0 ∷ seen) es).1,
      )
  unfolding list_new
  list_new_first seen e es first = rw (first, list_new) refl

  first-IsNew :
      (seen : List Str) (e : Str × BeamlineDevice) (r : List Str × List (Str × BeamlineDevice))
      (b : Bool)
      → saw seen e.0 ≡ false
      → IsNew (e.0 ∷ seen) r
      → IsNew seen (r.0, if b then e ∷ r.1 else r.1)
  first-IsNew seen e r true first (distinct, grows, apart, kept) = (
    (
      elim (Bool-cases (has_uid r.1 e.0)) [
        | inl inside ↦ absurd (ground (arith, apart e.0 inside, str_beq_iff e.0 e.0))
        | inr outside ↦ outside
      ],
      distinct,
    ),
    λ uid h. grows uid (ground (arith, h)),
    λ uid h. ground (arith, h, apart uid, first, str_beq_iff e.0 uid),
    λ uid h. ground (arith, h, kept uid, grows uid, str_beq_iff e.0 uid),
  )
  first-IsNew seen e r false first (distinct, grows, apart, kept) = (
    distinct,
    λ uid h. grows uid (ground (arith, h)),
    λ uid h. ground (arith, h, apart uid),
    kept,
  )

  nothing-IsNew : (seen : List Str) → IsNew seen (list_new devgroup devfunc zone seen [])
  unfolding list_new
  nothing-IsNew seen =
      (tt, λ uid h. h, λ uid h. absurd (ground arith), λ uid h. absurd (ground arith))

  list_new-IsNew :
      (es : List (Str × BeamlineDevice)) (seen : List Str)
      → IsNew seen (list_new devgroup devfunc zone seen es)
  list_new-IsNew [] seen = nothing-IsNew seen
  list_new-IsNew (e ∷ es) seen = elim (Bool-cases (saw seen e.0)) [
    | inl old ↦ subst (IsNew seen) (sym (list_new_old seen e es old)) (list_new-IsNew es seen)
    | inr first ↦ subst (IsNew seen) (sym (list_new_first seen e es first)) (
        first-IsNew seen e (list_new devgroup devfunc zone (e.0 ∷ seen) es) _ first
          (list_new-IsNew es (e.0 ∷ seen)))
  ]

  abbrev Answers : Type 0
  Answers = Dict (List (Str × BeamlineDevice) × List Str)

  list_all_missing :
      (results : Answers) (seen : List Str) (ws : Str) (workspaces : List Str)
      → Dict.get results ws ≡ none
      → list_all devgroup devfunc zone results seen (ws ∷ workspaces)
        ≡ list_all devgroup devfunc zone results seen workspaces
  unfolding list_all
  list_all_missing results seen ws workspaces missing = rw (missing, list_all) refl

  list_all_answered :
      (results : Answers) (seen : List Str) (ws : Str) (workspaces : List Str)
      (records : List (Str × BeamlineDevice)) (notes : List Str)
      → Dict.get results ws ≡ some (records, notes)
      → (list_all devgroup devfunc zone results seen (ws ∷ workspaces)).0
        ≡ (list_new devgroup devfunc zone seen records).1
          ++ (list_all devgroup devfunc zone results
              (list_new devgroup devfunc zone seen records).0
              workspaces).0
  unfolding list_all
  list_all_answered results seen ws workspaces records notes found = rw (found, list_all) refl

  -- Of records that were not seen before.
  abbrev IsUnseen : List Str → List (Str × BeamlineDevice) → Type 0
  IsUnseen seen es = Distinct es × ((uid : Str) → has_uid es uid ≡ true → saw seen uid ≡ false)

  append-IsUnseen :
      (seen : List Str) (r : List Str × List (Str × BeamlineDevice))
      (more : List (Str × BeamlineDevice))
      → IsNew seen r
      → IsUnseen r.0 more
      → IsUnseen seen (r.1 ++ more)
  append-IsUnseen seen r more (distinct, grows, apart, kept) (others, unseen) = (
    Distinct-append r.1 more distinct others (λ uid h. ground (arith, kept uid h, unseen uid)),
    λ uid h. ground (arith, h, has_uid-append r.1 more uid, apart uid, unseen uid, grows uid),
  )

  nothing-IsUnseen :
      (results : Answers) (seen : List Str)
      → IsUnseen seen (list_all devgroup devfunc zone results seen []).0
  unfolding list_all
  nothing-IsUnseen results seen = (tt, λ uid h. absurd (ground arith))

  list_all-IsUnseen :
      (results : Answers) (workspaces : List Str) (seen : List Str)
      → IsUnseen seen (list_all devgroup devfunc zone results seen workspaces).0
  list_all-IsUnseen results [] seen = nothing-IsUnseen results seen
  list_all-IsUnseen results (ws ∷ workspaces) seen = elim (Option-cases (Dict.get results ws)) [
    | inl missing ↦
        subst (λ r. IsUnseen seen r.0) (sym (list_all_missing results seen ws workspaces missing))
          (list_all-IsUnseen results workspaces seen)
    | inr (answer, found) ↦
        subst (IsUnseen seen)
          (sym (list_all_answered results seen ws workspaces answer.0 answer.1 found))
          (append-IsUnseen seen (list_new devgroup devfunc zone seen answer.0) _
            (list_new-IsNew answer.0 seen)
            (list_all-IsUnseen results workspaces (list_new devgroup devfunc zone seen answer.0).0))
  ]

  -- A record that several workspaces show is listed once, in whichever order they answer: no uid
  -- stands twice among the records of a listing.
  pub list_all-Distinct :
      (results : Answers) (workspaces : List Str)
      → Distinct (list_all devgroup devfunc zone results [] workspaces).0
  list_all-Distinct results workspaces = (list_all-IsUnseen results workspaces []).0
