-- ===== src/Sorting.antt =====
-- Python's stable sort by a key with `reverse=True`: the greatest key first, and equal keys in the order
-- in which they came.
use mathlib.Core.List.{Perm}
use mathlib.Core.List.Perm
use argus_mcp_server.Prelude.{
  ℕ, ◌≤◌, List, [], ◌∷◌, All, leb, if◌then◌else◌, arith, Bool-cases, inl, inr,
}

module _ {A : Type 0} (key : A → ℕ) where
  unfoldable pub insert_greatest : A → List A → List A
  insert_greatest x [] = x ∷ []
  insert_greatest x (y ∷ ys) =
      let rest = insert_greatest x ys in if leb (key y) (key x) then x ∷ y ∷ ys else y ∷ rest

  unfoldable pub sort_greatest : List A → List A
  unfolding insert_greatest
  sort_greatest [] = []
  sort_greatest (x ∷ xs) = insert_greatest x (sort_greatest xs)
      -- Each element's key is at least that of all that follow it.

  abbrev pub IsGreatestFirst : List A → Type 0
  IsGreatestFirst [] = Unit
  IsGreatestFirst (x ∷ xs) = All (λ y. key y ≤ key x) xs × IsGreatestFirst xs

  insert-All :
      (P : A → Type 0) (x : A) (xs : List A) → P x → All P xs → All P (insert_greatest x xs)
  unfolding insert_greatest
  insert-All P x [] p h = (p, tt)
  insert-All P x (y ∷ ys) p h = ground (arith, insert-All P x ys p h.1)

  All-weaken : (a b : ℕ) (xs : List A) → a ≤ b → All (λ y. key y ≤ a) xs → All (λ y. key y ≤ b) xs
  All-weaken a b [] h held = tt
  All-weaken a b (x ∷ xs) h (first, rest) = (omega (arith, h, first), All-weaken a b xs h rest)

  insert-IsGreatestFirst :
      (x : A) (xs : List A) → IsGreatestFirst xs → IsGreatestFirst (insert_greatest x xs)
  unfolding insert_greatest
  insert-IsGreatestFirst x [] h = (tt, tt)
  insert-IsGreatestFirst x (y ∷ ys) h = elim (Bool-cases (leb (key y) (key x))) [
    | inl less ↦
        rw less
          ((ground (arith, less), All-weaken (key y) (key x) ys (ground (arith, less)) h.0), h)
    | inr more ↦ rw more (
      insert-All (λ z. key z ≤ key y) x ys (ground (arith, more)) h.0,
      insert-IsGreatestFirst x ys h.1,
    )
  ]

  pub sort-IsGreatestFirst : (xs : List A) → IsGreatestFirst (sort_greatest xs)
  unfolding sort_greatest
  sort-IsGreatestFirst [] = tt
  sort-IsGreatestFirst (x ∷ xs) =
      insert-IsGreatestFirst x (sort_greatest xs) (sort-IsGreatestFirst xs)

  insert-Perm : (x : A) (xs : List A) → Perm (x ∷ xs) (insert_greatest x xs)
  unfolding insert_greatest
  insert-Perm x [] = Perm.refl _
  insert-Perm x (y ∷ ys) = elim (Bool-cases (leb (key y) (key x))) [
    | inl less ↦ rw less (Perm.refl _)
    | inr more ↦ rw more (Perm.trans (Perm.swap y x ys) (Perm.cons y (insert-Perm x ys)))
  ]

  pub sort-Perm : (xs : List A) → Perm xs (sort_greatest xs)
  unfolding sort_greatest
  sort-Perm [] = Perm.refl _
  sort-Perm (x ∷ xs) = Perm.trans (Perm.cons x (sort-Perm xs)) (insert-Perm x (sort_greatest xs))

  pub sort-All : (P : A → Type 0) (xs : List A) → All P xs → All P (sort_greatest xs)
  unfolding sort_greatest
  sort-All P [] h = tt
  sort-All P (x ∷ xs) h = insert-All P x (sort_greatest xs) h.0 (sort-All P xs h.1)
