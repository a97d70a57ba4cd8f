-- ===== src/Cache/Locks.antt =====
-- One fetch at a time for a key.
use argus_mcp_server.Dict
use argus_mcp_server.Dict.{Dict, get-put}
use argus_mcp_server.Errors.{Result, ok, raise}
use argus_mcp_server.Prelude.{
  ℕ, Str, List, [], ◌∷◌, Option, none, some, ◌≡◌, ◌⊎◌, inl, inr, refl, arith, ◌==◌, nat_eq, str_eq,
  str_beq_iff, if◌then◌else◌, Option-cases,
}
use argus_mcp_server.Cache.{
  Phase, idle, called, waiting, holding, fetching, returned, failed, AsyncTtlCache, holder,
  lock_for, advance, begin, Event, call, resume, drop, drop_all, step, run, empty,
}

holder-put :
    (locks : Dict (Option ℕ)) (k j : Str) (h : Option ℕ)
    → holder (Dict.put locks k h) j ≡ (if k == j then h else holder locks j)
holder-put locks k j h = ground (arith, get-put locks k j h)

holder-lock_for :
    (locks : Dict (Option ℕ)) (k j : Str) → holder (lock_for locks k) j ≡ holder locks j
unfolding lock_for
holder-lock_for locks k j = ground (arith, get-put locks k j none, str_beq_iff k j)

module _ {V : Type 0} where
  -- The key whose lock a task must hold in this phase.
  abbrev pub owns : Phase V → Option Str
  owns (holding key) = some key
  owns (fetching key) = some key
  owns _ = none

  -- The locks are held by the tasks that stand between their `async with lock` and its end.
  pub record IsLocked (s : AsyncTtlCache V) : Type 0 where
    pub held : (t : ℕ) (k : Str) → owns (s.phase t) ≡ some k → holder s.locks k ≡ some t
    pub holds : (t : ℕ) (k : Str) → holder s.locks k ≡ some t → owns (s.phase t) ≡ some k

  module _ (s : AsyncTtlCache V) (h : IsLocked s) (t : ℕ) (r : Result V) where
    advance-held :
        (p : Phase V)
        → s.phase t ≡ p
        → (u : ℕ) (k : Str) → owns ((advance p t r s).phase u) ≡ some k
        → holder (advance p t r s).locks k ≡ some u
    unfolding advance
    advance-held idle e u k o = h.held u k o
    advance-held (called key) e u k o =
        ground (arith, h.held u k, h.held t k, holder-lock_for s.locks key k)
    advance-held (waiting key) e u k o =
        ground (arith, h.held u k, holder-put s.locks key k (some t), str_beq_iff key k)
    advance-held (holding key) e u k o =
        ground (arith, h.held u k, h.held t key, holder-put s.locks key k none, str_beq_iff key k)
    advance-held (fetching key) e u k o = fetched_held r o
      where
        fetched_held :
            (r : Result V)
            → owns ((advance (fetching key) t r s).phase u) ≡ some k
            → holder (advance (fetching key) t r s).locks k ≡ some u
        fetched_held (ok v) o' =
            ground
              (arith, h.held u k, h.held t key, holder-put s.locks key k none, str_beq_iff key k)
        fetched_held (raise x) o' =
            ground
              (arith, h.held u k, h.held t key, holder-put s.locks key k none, str_beq_iff key k)
    advance-held (returned key v) e u k o = h.held u k o
    advance-held (failed key x) e u k o = h.held u k o

    advance-holds :
        (p : Phase V)
        → s.phase t ≡ p
        → (u : ℕ) (k : Str) → holder (advance p t r s).locks k ≡ some u
        → owns ((advance p t r s).phase u) ≡ some k
    unfolding advance
    advance-holds idle e u k o = h.holds u k o
    advance-holds (called key) e u k o =
        ground (arith, h.holds u k, h.holds t k, holder-lock_for s.locks key k)
    advance-holds (waiting key) e u k o =
        ground
          (arith, h.holds u k, h.holds t k, holder-put s.locks key k (some t), str_beq_iff key k)
    advance-holds (holding key) e u k o =
        ground (arith, h.holds u k, h.held t key, holder-put s.locks key k none, str_beq_iff key k)
    advance-holds (fetching key) e u k o = fetched_holds r o
      where
        fetched_holds :
            (r : Result V)
            → holder (advance (fetching key) t r s).locks k ≡ some u
            → owns ((advance (fetching key) t r s).phase u) ≡ some k
        fetched_holds (ok v) o' =
            ground
              (arith, h.holds u k, h.held t key, holder-put s.locks key k none, str_beq_iff key k)
        fetched_holds (raise x) o' =
            ground
              (arith, h.holds u k, h.held t key, holder-put s.locks key k none, str_beq_iff key k)
    advance-holds (returned key v) e u k o = h.holds u k o
    advance-holds (failed key x) e u k o = h.holds u k o

  begin-IsLocked :
      (s : AsyncTtlCache V) (t : ℕ) (key : Str) (p : Phase V)
      → IsLocked s
      → s.phase t ≡ p
      → IsLocked (begin p t key s)
  begin-IsLocked s t key idle h e = record {
    held = λ u k o. ground (arith, h.held u k);
    holds = λ u k o. ground (arith, h.holds u k);
  }
  begin-IsLocked s t key _ h e = h

  step-IsLocked : (s : AsyncTtlCache V) (e : Event V) → IsLocked s → IsLocked (step s e)
  unfolding step
  step-IsLocked s (call t key) h = begin-IsLocked s t key (s.phase t) h refl
  step-IsLocked s (resume t r) h = record {
    held = advance-held s h t r (s.phase t) refl;
    holds = advance-holds s h t r (s.phase t) refl;
  }
  step-IsLocked s (drop key) h = record { held = h.held; holds = h.holds }
  step-IsLocked s drop_all h = record { held = h.held; holds = h.holds }

  pub run-IsLocked :
      (s : AsyncTtlCache V) (events : List (Event V)) → IsLocked s → IsLocked (run s events)
  unfolding run
  run-IsLocked s [] h = h
  run-IsLocked s (e ∷ events) h = run-IsLocked (step s e) events (step-IsLocked s e h)

  pub empty-IsLocked : IsLocked (empty {V = V})
  unfolding Dict.get
  empty-IsLocked = record { held = λ t k o. cc; holds = λ t k o. cc }

  -- In every interleaving of calls, resumptions and lost entries, at most one task at a time awaits
  -- the factory for a key.
  pub run-one_fetch :
      (events : List (Event V)) (t u : ℕ) (key : Str)
      → (run empty events).phase t ≡ fetching key
      → (run empty events).phase u ≡ fetching key
      → t ≡ u
  run-one_fetch events t u key p q =
      let h = run-IsLocked empty events empty-IsLocked in ground (arith, h.held t key, h.held u key)

  owns_cases :
      (p : Phase V) (key : Str) → owns p ≡ some key → (p ≡ holding key) ⊎ (p ≡ fetching key)
  owns_cases p key h = ground arith

  -- No waiting task is stuck: in every interleaving, where a task waits for the lock of a key, either
  -- some task is on its way through the locked part for that key, or the waiting task gets the lock
  -- when it is resumed.
  pub run_progress :
      (events : List (Event V)) (t : ℕ) (key : Str) (r : Result V)
      → (run empty events).phase t ≡ waiting key
      → ((u : ℕ) × (((run empty events).phase u ≡ holding key)
            ⊎ ((run empty events).phase u ≡ fetching key)))
        ⊎ ((step (run empty events) (resume t r)).phase t ≡ holding key)
  unfolding step
  run_progress events t key r p =
      let s = run empty events in
      elim (Option-cases (holder s.locks key)) [
        | inl free ↦ inr (rw p (ground (arith, free)))
        | inr (u, taken) ↦ inl (
          u,
          owns_cases (s.phase u) key ((run-IsLocked empty events empty-IsLocked).holds u key taken),
        )
      ]
