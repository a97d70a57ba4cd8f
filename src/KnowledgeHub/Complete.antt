-- ===== src/KnowledgeHub/Complete.antt =====
-- The loop over pages of argus/services/knowledge_hub_inventory_service.py lists a whole workspace.
use argus_mcp_server.Effects.{Effect}
use argus_mcp_server.Errors.{ok}
use argus_mcp_server.KnowledgeHub.Inventory.{
  HubObject, Page, Paging, page_size, max_pages, fresh_of, pages, paged, extend_page,
  all_control_devices,
}
use argus_mcp_server.Prelude.{
  ℕ, zero, suc, ◌+◌, ◌-◌, ◌*◌, ◌≤◌, Str, Bool, true, false, not, ◌&&◌, List, [], ◌∷◌, ◌++◌, Option,
  some, ◌≡◌, refl, sym, ap, ◌∙◌, arith, length, take, drop, any, All, nonempty, ◌==◌, str_eq,
  str_beq_iff, length-append, leb, Bool-cases, inl, inr,
}
use mathlib.Core.List.{append_assoc, append-nil}
use mathlib.Core.Path.{subst}

-- Every record has a uid, and no two the same.
abbrev pub IsDistinct : List HubObject → Type 0
IsDistinct [] = Unit
IsDistinct (o ∷ os) =
    (nonempty o.uid ≡ true) × (any (λ (s : HubObject). s.uid == o.uid) os ≡ false) × IsDistinct os

abbrev IsFresh : List HubObject → HubObject → Type 0
IsFresh seen o = (nonempty o.uid && not (any (λ (s : HubObject). s.uid == o.uid) seen)) ≡ true

IsFresh-nil : (ys : List HubObject) → IsDistinct ys → All (IsFresh []) ys
IsFresh-nil [] h = tt
IsFresh-nil (y ∷ ys) h = (ground (arith, h.0), IsFresh-nil ys h.2)

IsFresh-one :
    (x : HubObject) (xs ys : List HubObject)
    → any (λ (s : HubObject). s.uid == x.uid) ys ≡ false
    → All (IsFresh xs) ys
    → All (IsFresh (x ∷ xs)) ys
IsFresh-one x xs [] h k = tt
IsFresh-one x xs (y ∷ ys) h k = (
  ground (arith, h, k.0, str_beq_iff x.uid y.uid, str_beq_iff y.uid x.uid),
  IsFresh-one x xs ys (ground (arith, h)) k.1,
)

any-append-right :
    (p : HubObject → Bool) (xs ys : List HubObject) → any p (xs ++ ys) ≡ false → any p ys ≡ false
any-append-right p [] ys h = h
any-append-right p (x ∷ xs) ys h = any-append-right p xs ys (ground (arith, h))

IsFresh-rest : (xs ys : List HubObject) → IsDistinct (xs ++ ys) → All (IsFresh xs) ys
IsFresh-rest [] ys h = IsFresh-nil ys h
IsFresh-rest (x ∷ xs) ys h =
    IsFresh-one x xs ys (any-append-right _ xs ys h.1) (IsFresh-rest xs ys h.2)

keep_fresh : (seen zs : List HubObject) → All (IsFresh seen) zs → fresh_of seen zs ≡ zs
keep_fresh seen [] h = refl
keep_fresh seen (z ∷ zs) h = ground (arith, h.0, keep_fresh seen zs h.1)

take-IsFresh :
    (seen : List HubObject) (n : ℕ) (zs : List HubObject)
    → All (IsFresh seen) zs
    → All (IsFresh seen) (take n zs)
take-IsFresh seen zero zs h = tt
take-IsFresh seen (suc n) [] h = tt
take-IsFresh seen (suc n) (z ∷ zs) h = (h.0, take-IsFresh seen n zs h.1)

drop-append : (xs ys : List HubObject) → drop (length xs) (xs ++ ys) ≡ ys
drop-append [] ys = refl
drop-append (x ∷ xs) ys = drop-append xs ys

take-drop : (n : ℕ) (ys : List HubObject) → take n ys ++ drop n ys ≡ ys
take-drop zero ys = refl
take-drop (suc n) [] = refl
take-drop (suc n) (y ∷ ys) = ap (λ zs. y ∷ zs) (take-drop n ys)

drop_short : (n : ℕ) (ys : List HubObject) → length ys ≤ n → drop n ys ≡ []
drop_short zero [] h = refl
drop_short zero (y ∷ ys) h = absurd (omega arith)
drop_short (suc n) [] h = refl
drop_short (suc n) (y ∷ ys) h = drop_short n ys (omega arith)

length-take : (n : ℕ) (ys : List HubObject) → n ≤ length ys → length (take n ys) ≡ n
length-take zero ys h = refl
length-take (suc n) [] h = absurd (omega arith)
length-take (suc n) (y ∷ ys) h = ap suc (length-take n ys (omega arith))

empty_of : (ys : List HubObject) → length ys ≤ 0 → ys ≡ []
empty_of [] h = refl
empty_of (y ∷ ys) h = absurd (omega arith)

leb_le : (a b : ℕ) → leb a b ≡ true → a ≤ b
leb_le a b e = ground (arith, e)

leb_lt : (a b : ℕ) → leb a b ≡ false → suc b ≤ a
leb_lt a b e = ground (arith, e)

take_none : (ys : List HubObject) → [] ≡ take page_size ys → ys ≡ []
take_none [] e = refl
take_none (y ∷ ys) e = absurd (ground (arith, e))

-- The lengths of the two parts.
take-drop-length :
    (n : ℕ) (ys : List HubObject) → length (take n ys) + length (drop n ys) ≡ length ys
take-drop-length n ys = sym (length-append (take n ys) (drop n ys)) ∙ ap length (take-drop n ys)

-- A part that is as long as the whole is the whole.
take_whole : (n : ℕ) (ys : List HubObject) → length ys ≤ length (take n ys) → take n ys ≡ ys
take_whole n ys h =
    sym (append-nil (take n ys))
    ∙ ap (λ zs. take n ys ++ zs)
        (sym (empty_of (drop n ys) (let l = take-drop-length n ys in omega arith)))
    ∙ take-drop n ys

take_all_of : (n : ℕ) (ys : List HubObject) → length ys ≤ n → length (take n ys) ≡ length ys
take_all_of n ys h =
    let l = take-drop-length n ys in let d = ap length (drop_short n ys h) in omega arith

module _ {W : Type 0} (records : List HubObject) where
  -- A hub that honours `offset` and says how many records there are.
  abbrev pub hub : ℕ → Effect W (Option Page)
  hub offset w = (
    ok (
        some (record {
          unknown_types = false;
          total = length records;
          objects = take page_size (drop offset records);
        })),
    w,
  )

module _ (repr : Str → Str) (workspace : Str) {W : Type 0} (records : List HubObject) (w : W)
    (distinct : IsDistinct records) where
  paged_all :
      (xs : List HubObject) (total : ℕ)
      → xs ≡ records
      → total ≤ length records
      → paged repr workspace (record { objects = xs; total = total }) ≡ (records, [])
  unfolding paged
  paged_all xs total e h = ground (arith, e, h)

  extended :
      (next : Paging → Effect W (List HubObject × List Str)) (xs ys fresh : List HubObject)
      (total : ℕ)
      → xs ++ ys ≡ records
      → fresh ≡ take page_size ys
      → (page_size ≤ length ys
          → next (record { objects = xs ++ fresh; total = length records }) w
            ≡ (ok (records, []), w))
      → extend_page repr workspace
          (hub records)
          next
          (record { objects = xs; total = total })
          (length records)
          fresh
          w
        ≡ (ok (records, []), w)
  extended next xs ys [] total e f k =
      ap (λ r. (ok r, w))
        (paged_all xs (length records)
          (sym (append-nil xs) ∙ ap (λ zs. xs ++ zs) (sym (take_none ys f)) ∙ e) (omega arith))
  extended next xs ys (o ∷ fresh) total e f k =
      let full = length-append xs (o ∷ fresh) in
      let whole = sym (ap length e) ∙ length-append xs ys in
      let part = ap length f in
      elim (Bool-cases (leb (length records) (length (xs ++ o ∷ fresh)))) [
        | inl last ↦ rw last (
            ap (λ r. (ok r, w))
              (paged_all (xs ++ o ∷ fresh) (length records)
                (ap (λ zs. xs ++ zs)
                    (f
                      ∙ take_whole page_size ys (
                          let le = leb_le (length records) (length (xs ++ o ∷ fresh)) last in
                          omega arith))
                  ∙ e)
                (omega arith)))
        | inr more ↦ rw more (
            k (elim (Bool-cases (leb page_size (length ys))) [
              | inl enough ↦ leb_le page_size (length ys) enough
              | inr short ↦
                  let lt = leb_lt page_size (length ys) short in
                  let all_taken = take_all_of page_size ys (omega arith) in
                  let gt = leb_lt (length records) (length (xs ++ o ∷ fresh)) more in
                  absurd (omega arith)
            ]))
      ]

  pages_all :
      (left : ℕ) (xs ys : List HubObject) (total : ℕ)
      → xs ++ ys ≡ records
      → left ≤ max_pages
      → length xs ≡ (max_pages - left) * page_size
      → length ys ≤ left * page_size
      → total ≤ length records
      → pages repr workspace (hub records) left (record { objects = xs; total = total }) w
        ≡ (ok (records, []), w)
  unfolding pages
  pages_all zero xs ys total e h lx ly ht =
      ap (λ r. (ok r, w))
        (paged_all xs total (sym (append-nil xs) ∙ ap (λ zs. xs ++ zs) (sym (empty_of ys ly)) ∙ e)
          ht)
  pages_all (suc left) xs ys total e h lx ly ht =
      let rest : drop ((max_pages - suc left) * page_size) records ≡ ys =
        ap (λ n. drop n records) (sym lx)
        ∙ ap (λ zs. drop (length xs) zs) (sym e)
        ∙ drop-append xs ys in
      let fresh =
        fresh_of xs (take page_size (drop ((max_pages - suc left) * page_size) records)) in
      let same : fresh ≡ take page_size ys =
        ap (λ zs. fresh_of xs (take page_size zs)) rest
        ∙ keep_fresh xs (take page_size ys) (
            take-IsFresh xs page_size ys (
              IsFresh-rest xs ys
                (subst IsDistinct {x = records} {y = xs ++ ys} (sym e) distinct))) in
      extended (pages repr workspace (hub records) left) xs ys fresh total e same (λ enough.
        pages_all left (xs ++ fresh) (drop page_size ys) (length records)
          (append_assoc xs fresh (drop page_size ys)
            ∙ ap (λ zs. xs ++ (zs ++ drop page_size ys)) same
            ∙ ap (λ zs. xs ++ zs) (take-drop page_size ys)
            ∙ e)
          (omega arith)
          (let l = length-append xs fresh in
            let s = ap length same in let t = length-take page_size ys enough in omega arith)
          (let l = take-drop-length page_size ys in
            let t = length-take page_size ys enough in omega arith)
          (omega arith))

  -- Against a hub that honours `offset`, says how many records there are, and holds no more than
  -- `max_pages` pages of them, each with a uid of its own, the loop ends with every record, in the
  -- hub's order, and without a note.
  pub all_control_devices_complete :
      length records ≤ max_pages * page_size
      → all_control_devices repr workspace (hub records) w ≡ (ok (records, []), w)
  unfolding all_control_devices
  all_control_devices_complete h =
      pages_all max_pages [] records 0 refl (omega arith) refl h (omega arith)
