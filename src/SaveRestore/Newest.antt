-- ===== src/SaveRestore/Newest.antt =====
-- The stable sort of snapshots, newest first.
use mathlib.Core.List.{Perm}
use mathlib.Core.List.Perm
use argus_mcp_server.Prelude.{ℕ, ◌≤◌, List, [], ◌∷◌, arith, All, Bool-cases, inl, inr, str_eq, leb}
use argus_mcp_server.SaveRestore.Nodes.{SnrNode, created_key, insert_newest, sort_newest}

-- Each node is at least as new as all that follow it.
abbrev pub IsNewestFirst : List SnrNode → Type 0
IsNewestFirst [] = Unit
IsNewestFirst (n ∷ ns) = All (λ m. created_key m ≤ created_key n) ns × IsNewestFirst ns

insert-All :
    (P : SnrNode → Type 0) (n : SnrNode) (ns : List SnrNode)
    → P n
    → All P ns
    → All P (insert_newest n ns)
unfolding insert_newest
insert-All P n [] p h = (p, tt)
insert-All P n (m ∷ ms) p h = ground (arith, insert-All P n ms p h.1)

All-weaken :
    (a b : ℕ) (ns : List SnrNode)
    → a ≤ b
    → All (λ m. created_key m ≤ a) ns
    → All (λ m. created_key m ≤ b) ns
All-weaken a b [] h held = tt
All-weaken a b (n ∷ ns) h (first, rest) = (omega (arith, h, first), All-weaken a b ns h rest)

insert-IsNewestFirst :
    (n : SnrNode) (ns : List SnrNode) → IsNewestFirst ns → IsNewestFirst (insert_newest n ns)
unfolding insert_newest
insert-IsNewestFirst n [] h = (tt, tt)
insert-IsNewestFirst n (m ∷ ms) h = elim (Bool-cases (leb (created_key m) (created_key n))) [
  | inl older ↦ rw older (
    (
      ground (arith, older),
      All-weaken (created_key m) (created_key n) ms (ground (arith, older)) h.0,
    ),
    h,
  )
  | inr newer ↦ rw newer (
    insert-All (λ k. created_key k ≤ created_key m) n ms (ground (arith, newer)) h.0,
    insert-IsNewestFirst n ms h.1,
  )
]

pub sort-IsNewestFirst : (ns : List SnrNode) → IsNewestFirst (sort_newest ns)
unfolding sort_newest
sort-IsNewestFirst [] = tt
sort-IsNewestFirst (n ∷ ns) = insert-IsNewestFirst n (sort_newest ns) (sort-IsNewestFirst ns)

insert-Perm : (n : SnrNode) (ns : List SnrNode) → Perm (n ∷ ns) (insert_newest n ns)
unfolding insert_newest
insert-Perm n [] = Perm.refl _
insert-Perm n (m ∷ ms) = elim (Bool-cases (leb (created_key m) (created_key n))) [
  | inl older ↦ rw older (Perm.refl _)
  | inr newer ↦ rw newer (Perm.trans (Perm.swap m n ms) (Perm.cons m (insert-Perm n ms)))
]

pub sort-Perm : (ns : List SnrNode) → Perm ns (sort_newest ns)
unfolding sort_newest
sort-Perm [] = Perm.refl _
sort-Perm (n ∷ ns) = Perm.trans (Perm.cons n (sort-Perm ns)) (insert-Perm n (sort_newest ns))
