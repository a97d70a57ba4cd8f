-- ===== src/Cache/Tests.antt =====
-- Two callers of one key, and a third after the entry is gone.
use argus_mcp_server.Dict
use argus_mcp_server.Errors.{ok, raise, builtin_timeout}
use argus_mcp_server.Prelude.{ℕ, Str, str, List, [], ◌∷◌, ◌++◌, ◌≡◌, ◌⊎◌, refl, str_beq}
use argus_mcp_server.Cache.{Event, call, resume, run, step, empty, holding, fetching, returned}
use argus_mcp_server.Cache.Locks.{run-one_fetch, run_progress}
use argus_mcp_server.Cache.Sources.{Gave, run-Gave}

abbrev device : Str
device = str "device:QF12"

-- Task 1 is fetching, task 2 waits for it.
abbrev contended : List (Event ℕ)
contended =
    call 1 device
    ∷ call 2 device
    ∷ resume 1 (ok 7)
    ∷ resume 2 (ok 8)
    ∷ resume 1 (ok 7)
    ∷ resume 2 (ok 8)
    ∷ resume 1 (ok 7)
    ∷ []

abbrev settled : List (Event ℕ)
settled = contended ++ resume 1 (ok 7) ∷ resume 2 (ok 8) ∷ resume 2 (ok 8) ∷ []

program : Unit {0}
unfolding run Dict.get Dict.put Dict.remove str_beq
program = tt

-- The second caller shares the fetch of the first.
shared : (run empty settled).phase 2 ≡ returned device 7
unfolding program
shared = refl

-- After a failed fetch the waiting caller fetches for itself.
retried :
    (run empty (
        contended
        ++ resume 1 (raise builtin_timeout)
          ∷ resume 2 (ok 8)
          ∷ resume 2 (ok 8)
          ∷ resume 2 (ok 8)
          ∷ [])).phase
      2
    ≡ returned device 8
unfolding program
retried = refl

run-one_fetch_example : ◌≡◌ {A = ℕ} 1 1
unfolding program
run-one_fetch_example = run-one_fetch contended 1 1 device refl refl

run_progress_example :
    ((u : ℕ) × (((run empty contended).phase u ≡ holding device)
        ⊎ ((run empty contended).phase u ≡ fetching device)))
    ⊎ ((step (run empty contended) (resume 2 (ok 8))).phase 2 ≡ holding device)
unfolding program
run_progress_example = run_progress contended 2 device (ok 8) refl

run-Gave_example : Gave (run empty settled).fetched device 7
unfolding program
run-Gave_example = run-Gave settled 2 device 7 refl
