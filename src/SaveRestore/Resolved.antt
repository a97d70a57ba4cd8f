-- ===== src/SaveRestore/Resolved.antt =====
-- What a configuration or a snapshot that is found is, and in which order snapshots are listed.
use mathlib.Core.List.{Perm}
use mathlib.Core.Path.{subst}
use argus_mcp_server.Effects.{pure, ◌>>=◌, after_ok}
use argus_mcp_server.Errors.{ok}
use argus_mcp_server.Prelude.{
  Str, str, Bool, true, List, [], ◌∷◌, some, ◌≡◌, ap, ◌∙◌, arith, find, keep, All, Bool-cases,
  Option-cases, inl, inr, ◌==◌, str_eq, nonempty, strip, rpartition, strip_char, lower, ◌&&◌,
}
use argus_mcp_server.SaveRestore.Nodes.{
  SnrNode, SaveRestoreProvider, is_configuration, is_snapshot, is_uuid, find_named, sort_newest,
  resolve_configuration, list_snapshots, checked, pick_configuration, resolve_path,
}
use argus_mcp_server.SaveRestore.Newest.{IsNewestFirst, sort-IsNewestFirst, sort-Perm}

pub find_holds {ℓ} :
    {A : Type ℓ} (p : A → Bool) (xs : List A) (a : A) → find p xs ≡ some a → p a ≡ true
find_holds p [] a e = absurd (ground arith)
find_holds p (x ∷ xs) a e = ground (arith, find_holds p xs a)

pub find-All {ℓ κ} :
    {A : Type ℓ} (P : A → Type κ) (p : A → Bool) (xs : List A) (a : A)
    → All P xs
    → find p xs ≡ some a
    → P a
find-All P p [] a h e = absurd (ground arith)
find-All P p (x ∷ xs) a h e = elim (Bool-cases (p x)) [
  | inl hit ↦ subst P {x = x} {y = a} (ground arith) h.0
  | inr differs ↦ find-All P p xs a h.1 (ground arith)
]

pub find_named-All {κ} :
    (P : SnrNode → Type κ) (name : Str) (nodes : List SnrNode) (n : SnrNode)
    → All P nodes
    → find_named name nodes ≡ some n
    → P n
unfolding find_named
find_named-All P name nodes n h e =
    elim (Option-cases (find (λ (m : SnrNode). m.name == name) nodes)) [
      | inl missing ↦
          find-All P (λ (m : SnrNode). lower m.name == lower name) nodes n h
            (ground (arith, missing))
      | inr (m, found) ↦
          subst P {x = m} {y = n} (ground (arith, found))
            (find-All P (λ (m : SnrNode). m.name == name) nodes m h found)
    ]

pub keep-All {ℓ} : {A : Type ℓ} (p : A → Bool) (xs : List A) → All (λ x. p x ≡ true) (keep p xs)
keep-All p [] = tt
keep-All p (x ∷ xs) = ground (arith, keep-All p xs)

module _ {W : Type 0} (provider : SaveRestoreProvider W) (repr : Str → Str) where
  pub checked_holds :
      (test : SnrNode → Bool) (wanted id : Str) (read node : SnrNode) (label : Str) (w w' : W)
      → checked provider repr test wanted id read w ≡ (ok (node, label), w')
      → test node ≡ true
  checked_holds test wanted id read node label w w' e = elim (Bool-cases (test read)) [
    | inl good ↦ subst (λ n. test n ≡ true) {x = read} {y = node} (ground (arith, good)) good
    | inr bad ↦ absurd (ground (arith, bad))
  ]

  pick_configuration_holds :
      (name : Str) (place : Str × Str) (children : List SnrNode) (node : SnrNode) (label : Str)
      (w w' : W)
      → pick_configuration provider repr name place children w ≡ (ok (node, label), w')
      → is_configuration node ≡ true
  pick_configuration_holds name (folder_id, folder_path) children node label w w' e =
      elim (Option-cases (find_named name (keep is_configuration children))) [
        | inl missing ↦ absurd (ground (arith, missing))
        | inr (n, found) ↦
            subst (λ m. is_configuration m ≡ true) {x = n} {y = node} (ground (arith, found))
              (find_named-All (λ m. is_configuration m ≡ true) name (keep is_configuration children)
                n (keep-All is_configuration children) found)
      ]

  resolve_path_holds :
      (path : Str × Str) (node : SnrNode) (label : Str) (w w' : W)
      → resolve_path provider repr path w ≡ (ok (node, label), w')
      → is_configuration node ≡ true
  resolve_path_holds (folder, name) node label w w' e =
      elim (Bool-cases (nonempty folder && nonempty name)) [
        | inr empty ↦ absurd (ground (arith, empty))
        | inl full ↦
            let (place, w₁, placed, e₁) =
              after_ok (λ p. provider.get_children p.0 >>= pick_configuration provider repr name p)
                (provider.resolve_folder folder w) (node, label) w' (ground (arith, full)) in
            let (children, w₂, listed, e₂) =
              after_ok (pick_configuration provider repr name place)
                (provider.get_children place.0 w₁) (node, label) w' e₁ in
            pick_configuration_holds name place children node label w₂ w' e₂
      ]

  -- What resolve_configuration answers is a configuration, whether it is found by id or by path.
  resolve_configuration_kind :
      (configuration : Str) (node : SnrNode) (label : Str) (w w' : W)
      → resolve_configuration provider repr configuration w ≡ (ok (node, label), w')
      → is_configuration node ≡ true
  unfolding resolve_configuration
  resolve_configuration_kind configuration node label w w' e =
      let s = strip configuration in
      elim (Bool-cases (is_uuid s)) [
        | inl uuid ↦
            let (read, w₁, got, e₁) =
              after_ok (checked provider repr is_configuration (str "configuration") s)
                (provider.get_node s w) (node, label) w' (ground (arith, uuid)) in
            checked_holds is_configuration (str "configuration") s read node label w₁ w' e₁
        | inr path ↦
            resolve_path_holds (rpartition 47 (strip_char 47 s)) node label w w'
              (ground (arith, path))
      ]

  -- list_snapshots lists the snapshots among the configuration's children, each once and with no
  -- other node, newest first.
  pub list_snapshots-Perm :
      (configuration : Str) (config : SnrNode) (path : Str) (listed : List SnrNode) (w w' : W)
      → list_snapshots provider repr configuration w ≡ (ok (config, path, listed), w')
      → (children : List SnrNode) × (w₁ : W) × (provider.get_children config.unique_id w₁
          ≡ (ok children, w'))
        × Perm (keep is_snapshot children) listed
        × IsNewestFirst listed
  unfolding list_snapshots
  list_snapshots-Perm configuration config path listed w w' e =
      let (found, w₁, resolved, e₁) =
        after_ok
          (λ f. provider.get_children f.0.unique_id >>= λ children.
            pure (f.0, f.1, sort_newest (keep is_snapshot children)))
          (resolve_configuration provider repr configuration w) (config, path, listed) w' e in
      let (children, w₂, got, e₂) =
        after_ok (λ cs. pure (found.0, found.1, sort_newest (keep is_snapshot cs)))
          (provider.get_children found.0.unique_id w₁) (config, path, listed) w' e₁ in
      let sorted_is : sort_newest (keep is_snapshot children) ≡ listed = ground arith in
      let config_is : found.0 ≡ config = ground arith in
      let world_is : w₂ ≡ w' = ground arith in
      (
        children,
        w₁,
        subst (λ c. provider.get_children c.unique_id w₁ ≡ (ok children, w')) config_is
            (got ∙ ap (λ v. (ok children, v)) world_is),
        subst (Perm (keep is_snapshot children)) sorted_is (sort-Perm (keep is_snapshot children)),
        subst IsNewestFirst sorted_is (sort-IsNewestFirst (keep is_snapshot children)),
      )
