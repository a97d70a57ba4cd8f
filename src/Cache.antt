-- ===== src/Cache.antt =====
-- argus/core/cache.py: AsyncTTLCache under any interleaving of its callers. Each caller of
-- `get_or_set` is a task that runs from one `await` to the next; `_lock_for` never waits, since
-- nothing is awaited while its guard is held. An entry can go at any time, by its time to live, by
-- the size limit or by `invalidate`: that is cachetools' part. A lock is granted to any waiting task.
pub mod Locks
pub mod Sources
pub mod Timed
pub mod Tests
use argus_mcp_server.Dict
use argus_mcp_server.Dict.{Dict}
use argus_mcp_server.Errors.{Result, ok, raise, Exception}
use argus_mcp_server.Prelude.{
  ℕ, Str, List, [], ◌∷◌, Option, none, some, if◌then◌else◌, ◌==◌, nat_eq,
}

-- Where a task stands in `get_or_set(key, factory)`.
pub data Phase (V : Type 0) : Type 0 where
  idle : Phase V
  called waiting holding fetching : (key : Str) → Phase V
  returned : (key : Str) → V → Phase V
  failed : (key : Str) → Exception → Phase V

-- `locks` has the holder of each lock that was made; `fetched` remembers what the factories gave.
pub record AsyncTtlCache (V : Type 0) : Type 0 where
  pub cache : Dict V
  pub locks : Dict (Option ℕ)
  pub phase : ℕ → Phase V
  pub fetched : List (Str × V)

-- The task that holds the lock of a key.
abbrev pub holder : Dict (Option ℕ) → Str → Option ℕ
holder locks key = elim (Dict.get locks key) [ none ↦ none | some h ↦ h ]

-- The lock of a key, made if it is not there.
unfoldable pub lock_for : Dict (Option ℕ) → Str → Dict (Option ℕ)
lock_for locks key = elim (Dict.get locks key) [ none ↦ Dict.put locks key none | some h ↦ locks ]

module _ {V : Type 0} where
  abbrev pub empty : AsyncTtlCache V
  empty = record { cache = []; locks = []; phase = λ t. idle; fetched = [] }

  abbrev pub set_phase : (ℕ → Phase V) → ℕ → Phase V → ℕ → Phase V
  set_phase phase t p u = if u == t then p else phase u

  -- The next stretch of task `t`, from where it stands; `result` is what its factory gives or raises
  -- if it is awaiting it.
  unfoldable pub advance : Phase V → ℕ → Result V → AsyncTtlCache V → AsyncTtlCache V
  unfolding lock_for
  advance idle t result s = s
  advance (called key) t result s = elim (Dict.get s.cache key) [
    | some v ↦ record s { phase = set_phase s.phase t (returned key v) }
    | none ↦ record s { locks = lock_for s.locks key; phase = set_phase s.phase t (waiting key) }
  ]
  advance (waiting key) t result s = elim (holder s.locks key) [
    | some u ↦ s
    | none ↦ record s {
      locks = Dict.put s.locks key (some t);
      phase = set_phase s.phase t (holding key);
    }
  ]
  advance (holding key) t result s = elim (Dict.get s.cache key) [
    | some v ↦ record s {
      locks = Dict.put s.locks key none;
      phase = set_phase s.phase t (returned key v);
    }
    | none ↦ record s { phase = set_phase s.phase t (fetching key) }
  ]
  advance (fetching key) t (ok v) s = record {
    cache = Dict.put s.cache key v;
    locks = Dict.put s.locks key none;
    phase = set_phase s.phase t (returned key v);
    fetched = (key, v) ∷ s.fetched;
  }
  advance (fetching key) t (raise e) s = record s {
    locks = Dict.put s.locks key none;
    phase = set_phase s.phase t (failed key e);
  }
  advance (returned key v) t result s = s
  advance (failed key e) t result s = s

  unfoldable pub invalidate : Str → AsyncTtlCache V → AsyncTtlCache V
  invalidate key s = record s { cache = Dict.remove s.cache key }

  unfoldable pub clear : AsyncTtlCache V → AsyncTtlCache V
  clear s = record s { cache = [] }

-- What happens next: a call, a stretch of a task, or entries going.
pub data Event (V : Type 0) : Type 0 where
  call : (t : ℕ) (key : Str) → Event V
  resume : (t : ℕ) → Result V → Event V
  drop : (key : Str) → Event V
  drop_all : Event V

module _ {V : Type 0} where
  -- A task number is used for one call.
  abbrev begin : Phase V → ℕ → Str → AsyncTtlCache V → AsyncTtlCache V
  begin idle t key s = record s { phase = set_phase s.phase t (called key) }
  begin _ t key s = s

  unfoldable pub step : AsyncTtlCache V → Event V → AsyncTtlCache V
  unfolding advance invalidate clear
  step s (call t key) = begin (s.phase t) t key s
  step s (resume t result) = advance (s.phase t) t result s
  step s (drop key) = invalidate key s
  step s drop_all = clear s

  unfoldable pub run : AsyncTtlCache V → List (Event V) → AsyncTtlCache V
  unfolding step
  run s [] = s
  run s (e ∷ events) = run (step s e) events
