-- ===== src/Dict.antt =====
-- A Python `dict` with text keys, as the list of its entries in insertion order.
use argus_mcp_server.Prelude.{
  Bool, true, false, List, [], ◌∷◌, map, Option, none, some, ◌≡◌, refl, arith, keep, if◌then◌else◌,
  ◌==◌, Str, str_beq_iff, str_eq,
}

abbrev pub Dict {ℓ} : Type ℓ → Type ℓ
Dict V = List (Str × V)

module _ {ℓ} {V : Type ℓ} where
  -- `d.get(k)`
  unfoldable pub get : Dict V → Str → Option V
  get [] k = none
  get ((j, v) ∷ d) k = if j == k then some v else get d k

  -- `k in d`
  abbrev pub has : Dict V → Str → Bool
  has d k = elim (get d k) [ none ↦ false | some v ↦ true ]

  -- `d[k] = v`: an entry keeps its place, a new one comes last.
  unfoldable pub put : Dict V → Str → V → Dict V
  put [] k v = (k, v) ∷ []
  put ((j, w) ∷ d) k v = if j == k then (j, v) ∷ d else (j, w) ∷ put d k v

  -- `del d[k]`, `d.pop(k, None)`
  unfoldable pub remove : Dict V → Str → Dict V
  remove [] k = []
  remove ((j, w) ∷ d) k = let rest = remove d k in if j == k then rest else (j, w) ∷ rest

  -- `d.update(e)`
  unfoldable pub update : Dict V → Dict V → Dict V
  unfolding put
  update d [] = d
  update d ((k, v) ∷ e) = update (put d k v) e

  abbrev pub keys : Dict V → List Str
  keys d = map (λ e. e.0) d

  abbrev pub values : Dict V → List V
  values d = map (λ e. e.1) d

  pub get_of_has : (d : Dict V) (k : Str) → has d k ≡ false → get d k ≡ none
  get_of_has d k h = ground arith

  pub has_of_get : (d : Dict V) (k : Str) → get d k ≡ none → has d k ≡ false
  has_of_get d k h = ground arith

  -- No key stands twice.
  abbrev pub IsDict : Dict V → Type 0
  IsDict [] = Unit
  IsDict ((k, v) ∷ d) = (has d k ≡ false) × IsDict d

  pub get-put :
      (d : Dict V) (k j : Str) (v : V) → get (put d k v) j ≡ (if k == j then some v else get d j)
  unfolding get put
  get-put [] k j v = refl
  get-put ((i, w) ∷ d) k j v =
      ground (arith, str_beq_iff i k, str_beq_iff i j, str_beq_iff k j, get-put d k j v)

  pub get-remove :
      (d : Dict V) (k j : Str) → get (remove d k) j ≡ (if k == j then none else get d j)
  unfolding get remove
  get-remove [] k j = ground arith
  get-remove ((i, w) ∷ d) k j =
      ground (arith, str_beq_iff i k, str_beq_iff i j, str_beq_iff k j, get-remove d k j)

  pub put-IsDict : (d : Dict V) (k : Str) (v : V) → IsDict d → IsDict (put d k v)
  unfolding put get
  put-IsDict [] k v h = (refl, tt)
  put-IsDict ((i, w) ∷ d) k v h =
      ground (arith, put-IsDict d k v h.1, get-put d k i v, str_beq_iff i k, str_beq_iff k i)

  pub remove-IsDict : (d : Dict V) (k : Str) → IsDict d → IsDict (remove d k)
  unfolding remove
  remove-IsDict [] k h = tt
  remove-IsDict ((i, w) ∷ d) k h = ground (arith, remove-IsDict d k h.1, get-remove d k i)

  -- Keeping entries by a test keeps their keys distinct.
  pub get-keep-none :
      (p : Str × V → Bool) (d : Dict V) (k : Str) → get d k ≡ none → get (keep p d) k ≡ none
  unfolding get
  get-keep-none p [] k h = h
  get-keep-none p ((j, w) ∷ d) k h = ground (arith, get-keep-none p d k)

  pub keep-IsDict : (p : Str × V → Bool) (d : Dict V) → IsDict d → IsDict (keep p d)
  keep-IsDict p [] h = tt
  keep-IsDict p ((j, w) ∷ d) h = ground (arith, keep-IsDict p d h.1, get-keep-none p d j)

-- `d.get(k)` in the dictionary of the entries whose value passes the test.
abbrev pub passing {ℓ} : {V : Type ℓ} → (V → Bool) → Option V → Option V
passing p none = none
passing p (some v) = if p v then some v else none

module _ {ℓ} {V : Type ℓ} (p : V → Bool) where
  pub get-keep :
      (d : Dict V) (k : Str) → IsDict d → get (keep (λ e. p e.1) d) k ≡ passing p (get d k)
  unfolding get
  get-keep [] k h = refl
  get-keep ((j, v) ∷ d) k h =
      ground (
        arith,
        get-keep d k h.1,
        get_of_has d j h.0,
        str_beq_iff j k,
        get-keep-none (λ e. p e.1) d k,
      )

pub ruleset dict_laws = (get-put, get-remove)
