-- ===== src/Cache/Timed.antt =====
-- What a service sees of its argus/core/cache.py cache: entries with the time at which they expire. The
-- clock is read from the world; `evict` is what cachetools drops to make room for an entry.
use argus_mcp_server.Dict
use argus_mcp_server.Dict.{Dict, get-put}
use argus_mcp_server.Prelude.{
  ℕ, ◌+◌, ◌<◌, Str, Option, none, some, leb, if◌then◌else◌, str_eq, ◌≡◌, refl, arith, str_beq_self,
  ◌∙◌,
}

abbrev pub Entries : Type 0 → Type 0
Entries V = Dict (V × ℕ)

pub record TtlCache (W V : Type 0) : Type 0 where
  pub clock : W → ℕ
  pub ttl : ℕ
  pub evict : Entries V → Entries V

module _ {W V : Type 0} (c : TtlCache W V) where
  abbrev pub unexpired : ℕ → Option (V × ℕ) → Option V
  unexpired now none = none
  unexpired now (some (v, expires_at)) = if leb expires_at now then none else some v

  -- `self._cache[key]`, and none for its KeyError.
  unfoldable pub cached : Entries V → Str → W → Option V
  cached entries key w = unexpired (c.clock w) (Dict.get entries key)

  -- `self._cache[key] = value`
  unfoldable pub keep_value : Entries V → Str → V → W → Entries V
  keep_value entries key v w = Dict.put (c.evict entries) key (v, c.clock w + c.ttl)

  pub cached_unexpired :
      (entries : Entries V) (key : Str) (v : V) (expires_at : ℕ) (w : W)
      → Dict.get entries key ≡ some (v, expires_at)
      → c.clock w < expires_at
      → cached entries key w ≡ some v
  unfolding cached
  cached_unexpired entries key v expires_at w held early = rw held (ground (arith, early))

  pub get-keep_value :
      (entries : Entries V) (key : Str) (v : V) (w : W)
      → Dict.get (keep_value entries key v w) key ≡ some (v, c.clock w + c.ttl)
  unfolding keep_value
  get-keep_value entries key v w =
      get-put (c.evict entries) key key (v, c.clock w + c.ttl) ∙ rw (str_beq_self key) refl
