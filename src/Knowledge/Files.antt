-- ===== src/Knowledge/Files.antt =====
-- A file that was read stays read.
use argus_mcp_server.Cache.Timed.{
  Entries, cached, keep_value, cached_unexpired, get-keep_value, unexpired,
}
use argus_mcp_server.Dict
use argus_mcp_server.Dict.{Dict, get-put}
use argus_mcp_server.Effects.{Effect}
use argus_mcp_server.Errors.{Result, ok, raise}
use argus_mcp_server.Prelude.{
  ℕ, ◌+◌, ◌<◌, none, Str, Option, some, ◌≡◌, refl, ap, sym, ◌∙◌, arith, Option-cases, inl, inr,
  str_eq,
}
use argus_mcp_server.Knowledge.{
  KnowledgeService, GitProvider, State, provider_for, store, fetch, get_or_set, resolve_repo,
  resolve_ref, file_key, get_file,
}

module _ (netloc : Str → Str) {W V : Type 0} (service : KnowledgeService W V) where
  -- The entry under a key is of this value.
  abbrev Holds : State W V → Str → V → Type 0
  Holds s key v = (expires_at : ℕ) × (Dict.get s.cache key ≡ some (v, expires_at))

  store-Holds :
      (key : Str) (cache : Entries V) (r : Result V × W) (v : V) (s' : State W V)
      → store netloc service key cache r ≡ (ok v, s')
      → Holds s' key v
  store-Holds key cache (ok u, w) v s' e =
      let same : u ≡ v = ground (arith, e) in
      let stored : keep_value service.file_cache cache key u w ≡ s'.cache = ap (λ r. r.1.cache) e in
      let t = service.file_cache.clock w + service.file_cache.ttl in
      (
        t,
        ap (λ c. Dict.get c key) (sym stored)
            ∙ get-keep_value service.file_cache cache key u w
            ∙ ap (λ x. some (x, t)) same,
      )
  store-Holds key cache (raise x, w) v s' e = absurd (ground arith)

  unexpired_holds :
      (now : ℕ) (o : Option (V × ℕ)) (v : V)
      → unexpired service.file_cache now o ≡ some v
      → (expires_at : ℕ) × (o ≡ some (v, expires_at))
  unexpired_holds now none v e = absurd (ground arith)
  unexpired_holds now (some (u, t)) v e = (t, ground (arith, e))

  get_or_set-Holds :
      (key repo : Str) (op : GitProvider W V → Effect W V) (s : State W V) (v : V) (s' : State W V)
      → get_or_set netloc service key repo op s ≡ (ok v, s')
      → Holds s' key v
  unfolding get_or_set cached
  get_or_set-Holds key repo op s v s' e =
      elim (Option-cases (cached service.file_cache s.cache key s.world)) [
        | inl missing ↦
            store-Holds key s.cache
              (fetch netloc service op (provider_for netloc service repo) s.world) v s'
              (ground (arith, missing))
        | inr (u, hit) ↦
            let (t, held) =
              unexpired_holds (service.file_cache.clock s.world) (Dict.get s.cache key) u hit in
            (t, ground (arith, held, hit))
      ]

  get_or_set_hit :
      (key repo : Str) (op : GitProvider W V → Effect W V) (s : State W V) (v : V)
      → cached service.file_cache s.cache key s.world ≡ some v
      → get_or_set netloc service key repo op s ≡ (ok v, s)
  unfolding get_or_set
  get_or_set_hit key repo op s v hit = rw (hit, get_or_set) refl

  -- A file that get_file answered is answered again, the same and without a request, in a later state
  -- with the same cache, as long as the entry under the file's key has not expired; and however the
  -- repository and the reference are given the second time: by name, or left out where the first call's
  -- were the defaults.
  pub get_file_twice :
      (repo repo₂ : Option Str) (path name : Str) (ref ref₂ : Option Str) (v u : V)
      (s s' later : State W V) (expires_at : ℕ)
      → resolve_repo service.default_repos repo ≡ ok name
      → resolve_repo service.default_repos repo₂ ≡ ok name
      → resolve_ref service.default_ref ref ≡ resolve_ref service.default_ref ref₂
      → get_file netloc service repo path ref s ≡ (ok v, s')
      → later.cache ≡ s'.cache
      → Dict.get s'.cache (file_key netloc service name path (resolve_ref service.default_ref ref₂))
        ≡ some (u, expires_at)
      → service.file_cache.clock later.world < expires_at
      → get_file netloc service repo₂ path ref₂ later ≡ (ok v, later)
  unfolding get_file
  get_file_twice repo repo₂ path name ref ref₂ v u s s' later expires_at first second same e kept
        entry early =
      let key = file_key netloc service name path (resolve_ref service.default_ref ref₂) in
      let (t, held) =
        get_or_set-Holds key name (λ p. p.get_file name path (resolve_ref service.default_ref ref₂))
          s v s' (ground (arith, first, same, e)) in
      let there : Dict.get later.cache key ≡ some (v, expires_at) =
        ap (λ c. Dict.get c key) kept ∙ entry ∙ ground (arith, entry, held) in
      rw second (
        get_or_set_hit key name (λ p. p.get_file name path (resolve_ref service.default_ref ref₂))
          later v
          (cached_unexpired service.file_cache later.cache key v expires_at later.world there
            early))
