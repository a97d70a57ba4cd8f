-- ===== src/KnowledgeHub/Fanout.antt =====
-- When a search over the workspaces fails as a whole.
use argus_mcp_server.Dict
use argus_mcp_server.Dict.{Dict}
use argus_mcp_server.Errors.{Exception, Result, ok, raise}
use argus_mcp_server.Prelude.{
  Str, List, [], ◌∷◌, Option, none, some, map, All, ◌≡◌, ◌≢◌, refl, arith, ◌==◌, str_eq, Bool-cases,
  inl, inr,
}
use argus_mcp_server.KnowledgeHub.{collect, degrade, for_each_workspace}

module _ {T : Type 0} where
  abbrev pub Failed : Result T → Type 0
  Failed r = (x : Exception) × (r ≡ raise x)

  put-full : (d : Dict T) (k : Str) (v : T) → Dict.put d k v ≢ []
  unfolding Dict.put
  put-full [] k v = ground arith
  put-full ((j, w) ∷ d) k v = elim (Bool-cases (j == k)) [
    | inl same ↦ λ e. absurd (ground (arith, same, e))
    | inr other ↦ λ e. absurd (ground (arith, other, e))
  ]

  degrade_raise :
      (results : Dict T) (errors : Dict Str) (first : Option Exception) (e : Exception)
      → degrade (results, errors, first) ≡ raise e
      → results ≡ []
  degrade_raise [] errors first e h = refl
  degrade_raise (r ∷ results) errors first e h = absurd (ground arith)

  collect_raise :
      (outcomes : List (Str × Result T)) (results : Dict T) (errors : Dict Str)
      (first : Option Exception) (e : Exception)
      → degrade (collect results errors first outcomes) ≡ raise e
      → (results ≡ []) × All (λ o. Failed o.1) outcomes
  unfolding collect
  collect_raise [] results errors first e h = (degrade_raise results errors first e h, tt)
  collect_raise ((ws, ok t) ∷ outcomes) results errors first e h =
      absurd
        (put-full results ws t (collect_raise outcomes (Dict.put results ws t) errors first e h).0)
  collect_raise ((ws, raise x) ∷ outcomes) results errors none e h =
      let (empty, failed) = collect_raise outcomes results _ (some x) e h in
      (empty, ((x, refl), failed))
  collect_raise ((ws, raise x) ∷ outcomes) results errors (some first) e h =
      let (empty, failed) = collect_raise outcomes results _ (some first) e h in
      (empty, ((x, refl), failed))

  outcomes-All :
      (fn : Str → Result T) (workspaces : List Str)
      → All (λ (o : Str × Result T). Failed o.1) (map (λ ws. (ws, fn ws)) workspaces)
      → All (λ ws. Failed (fn ws)) workspaces
  outcomes-All fn [] h = tt
  outcomes-All fn (ws ∷ workspaces) h = (h.0, outcomes-All fn workspaces h.1)

  -- A search over workspaces fails as a whole only where it failed in every one of them.
  pub for_each_workspace_raise :
      (workspaces : List Str) (fn : Str → Result T) (e : Exception)
      → for_each_workspace workspaces fn ≡ raise e
      → All (λ ws. Failed (fn ws)) workspaces
  unfolding for_each_workspace
  for_each_workspace_raise workspaces fn e h =
      outcomes-All fn workspaces
        (collect_raise (map (λ ws. (ws, fn ws)) workspaces) [] [] none e h).1
