-- ===== src/Fanout/Results.antt =====
-- Every call has its own result, whatever the others do.
use mathlib.Core.Option
use argus_mcp_server.Dict
use argus_mcp_server.Dict.{Dict}
use argus_mcp_server.Errors.{argus, Result, Role, role}
use argus_mcp_server.Prelude.{ℕ, Str, some, ◌≡◌, ◌↔◌, refl, arith, str_eq, ◌≢◌, All}
use argus_mcp_server.Fanout.{Status, Awaited, run_one, of_role}

role_not_ok :
    (A : Type 0) (r : Role) (provider message : Str) (latency : ℕ)
    → (of_role {A = A} r provider message latency).status ≢ Status.ok
role_not_ok A r provider message latency = ground arith

module _ {A : Type 0} where
  -- Every entry of the second is found in the first.
  abbrev Found : Dict (Awaited A) → Dict (Awaited A) → Type 0
  Found tasks entries = All (λ e. Dict.get tasks e.0 ≡ some e.1) entries

  -- The status is "ok" exactly when the call gave a value in time, and then the result holds it.
  run_one-ok :
      (provider limit : Str) (awaited : Awaited A)
      → ((run_one provider limit awaited).status ≡ Status.ok)
        ↔ ((a : A) × (awaited.0 ≡ Result.ok a) × ((run_one provider limit awaited).answer ≡ some a))
  unfolding run_one
  run_one-ok provider limit (Result.ok a, t) = (λ e. (a, refl, refl), λ e. refl)
  run_one-ok provider limit (Result.raise (argus c message), t) =
      (λ e. absurd (role_not_ok A (role c) provider message t e), λ e. absurd (ground arith))
  run_one-ok provider limit (Result.raise x, t) =
      (λ e. absurd (ground arith), λ e. absurd (ground arith))
