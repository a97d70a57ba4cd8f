-- ===== src/Cache/Sources.antt =====
-- Where the values that callers get come from.
use argus_mcp_server.Dict
use argus_mcp_server.Dict.{Dict, get-put, get-remove}
use mathlib.Core.Path.{subst₂}
use argus_mcp_server.Errors.{Result, ok, raise}
use argus_mcp_server.Prelude.{
  ℕ, Str, List, [], ◌∷◌, Option, none, some, ◌≡◌, ◌≢◌, Bool-cases, ◌⊎◌, inl, inr, refl, arith, ◌==◌,
  nat_eq, str_eq, str_beq_iff,
}
use argus_mcp_server.Cache.{
  Phase, idle, called, waiting, holding, fetching, returned, failed, AsyncTtlCache, set_phase,
  advance, holder, lock_for, begin, Event, call, resume, drop, drop_all, step, run, empty,
}

module _ {V : Type 0} where
  -- A factory for the key gave this value.
  abbrev pub Gave : List (Str × V) → Str → V → Type 0
  Gave [] key v = ⊥
  Gave ((k, w) ∷ log) key v = ((k ≡ key) × (w ≡ v)) ⊎ Gave log key v

  abbrev pub result_of : Phase V → Option (Str × V)
  result_of (returned key v) = some (key, v)
  result_of _ = none

  record HasSource (s : AsyncTtlCache V) : Type 0 where
    cached : (k : Str) (v : V) → Dict.get s.cache k ≡ some v → Gave s.fetched k v
    given : (t : ℕ) (k : Str) (v : V) → s.phase t ≡ returned k v → Gave s.fetched k v

  Gave-same :
      (log : List (Str × V)) {k j : Str} {v w : V} → k ≡ j → v ≡ w → Gave log k v → Gave log j w
  Gave-same log p q g = subst₂ (Gave log) p q g

  module _ (s : AsyncTtlCache V) (h : HasSource s) (t : ℕ) where
    -- Task `t` moves to a phase whose value has a source.
    moved :
        (p : Phase V)
        → ((k : Str) (v : V) → p ≡ returned k v → Gave s.fetched k v)
        → (u : ℕ) (k : Str) (v : V) → set_phase s.phase t p u ≡ returned k v
        → Gave s.fetched k v
    moved p hp u k v e = elim (Bool-cases (u == t)) [
      | inl same ↦ hp k v (ground arith)
      | inr other ↦ h.given u k v (ground arith)
    ]

    hit :
        (key : Str) (v : V)
        → Dict.get s.cache key ≡ some v
        → (k : Str) (w : V) → returned key v ≡ returned k w
        → Gave s.fetched k w
    hit key v found k w e = Gave-same s.fetched (cc) (cc) (h.cached key v found)

    unchanged :
        (locks : Dict (Option ℕ)) (p : Phase V)
        → ((k : Str) (v : V) → p ≡ returned k v → Gave s.fetched k v)
        → HasSource (record s { locks = locks; phase = set_phase s.phase t p })
    unchanged locks p hp = record { cached = h.cached; given = moved p hp }

    looked_up :
        (key : Str) (locks₁ locks₂ : Dict (Option ℕ)) (next : Phase V) (o : Option V)
        → Dict.get s.cache key ≡ o
        → ((k : Str) (v : V) → next ≢ returned k v)
        → HasSource (elim o [
          | some v ↦ record s { locks = locks₁; phase = set_phase s.phase t (returned key v) }
          | none ↦ record s { locks = locks₂; phase = set_phase s.phase t next }
        ])
    looked_up key locks₁ locks₂ next none e hn = unchanged locks₂ next (λ k v x. absurd (hn k v x))
    looked_up key locks₁ locks₂ next (some v) e hn = unchanged locks₁ (returned key v) (hit key v e)

    advance-HasSource : (p : Phase V) (r : Result V) → HasSource (advance p t r s)
    unfolding advance
    advance-HasSource idle r = h
    advance-HasSource (called key) r =
        looked_up key s.locks (lock_for s.locks key) (waiting key) _ refl (λ k v e. cc)
    advance-HasSource (waiting key) r = granted (holder s.locks key)
      where
        granted :
            (o : Option ℕ)
            → HasSource (elim o [
              | some u ↦ s
              | none ↦ record s {
                locks = Dict.put s.locks key (some t);
                phase = set_phase s.phase t (holding key);
              }
            ])
        granted none = unchanged (Dict.put s.locks key (some t)) (holding key) (λ k v e. cc)
        granted (some u) = h
    advance-HasSource (holding key) r =
        looked_up key (Dict.put s.locks key none) s.locks (fetching key) _ refl (λ k v e. cc)
    advance-HasSource (fetching key) (ok v) = record {
      cached = λ k w e. ground (arith, get-put s.cache key k v, str_beq_iff key k, h.cached k w);
      given = λ u k w e. ground (arith, h.given u k w);
    }
    advance-HasSource (fetching key) (raise x) =
        unchanged (Dict.put s.locks key none) (failed key x) (λ k v e. cc)
    advance-HasSource (returned key v) r = h
    advance-HasSource (failed key x) r = h

  begin-HasSource :
      (s : AsyncTtlCache V) (t : ℕ) (key : Str) (p : Phase V)
      → HasSource s
      → HasSource (begin p t key s)
  begin-HasSource s t key idle h = unchanged s h t s.locks (called key) (λ k v e. cc)
  begin-HasSource s t key _ h = h

  step-HasSource : (s : AsyncTtlCache V) (e : Event V) → HasSource s → HasSource (step s e)
  unfolding step Dict.get
  step-HasSource s (call t key) h = begin-HasSource s t key (s.phase t) h
  step-HasSource s (resume t r) h = advance-HasSource s h t (s.phase t) r
  step-HasSource s (drop key) h = record {
    cached = λ k v e. h.cached k v (ground (arith, get-remove s.cache key k));
    given = h.given;
  }
  step-HasSource s drop_all h = record { cached = λ k v e. absurd (cc); given = h.given }

  run-HasSource :
      (s : AsyncTtlCache V) (events : List (Event V)) → HasSource s → HasSource (run s events)
  unfolding run
  run-HasSource s [] h = h
  run-HasSource s (e ∷ events) h = run-HasSource (step s e) events (step-HasSource s e h)

  -- In every interleaving, a value that `get_or_set` returns for a key was given by a factory awaited
  -- for that key, never by one for another key.
  pub run-Gave :
      (events : List (Event V)) (t : ℕ) (key : Str) (v : V)
      → (run empty events).phase t ≡ returned key v
      → Gave (run empty events).fetched key v
  unfolding Dict.get
  run-Gave events t key v p =
      (run-HasSource empty events
          (record { cached = λ k w e. absurd (cc); given = λ u k w e. absurd (cc) })).given
        t key v p
