-- ===== src/Fanout.antt =====
-- argus/core/models.py: the outcome of one provider call as a value, and the fan-out of several
-- calls. An awaited call is what it gives within its timeout (`builtin_timeout` if the timeout cuts
-- it off) and the milliseconds that it took; the calls run side by side, so one cannot change what
-- another gives. Logging is left out.
pub mod Results
pub mod Tests
use argus_mcp_server.Dict
use argus_mcp_server.Dict.{Dict}
use argus_mcp_server.Errors.{
  argus, not_implemented, builtin_timeout, unexpected, Result, Role, role,
}
use argus_mcp_server.Prelude.{
  List, ℕ, Str, str, ◌++◌, [], ◌∷◌, Bool, true, false, Option, none, some, map,
}

pub data Status : Type 0 where
  ok unconfigured unavailable timeout error skipped : Status

pub record ProviderResult (A : Type 0) : Type 0 where
  pub provider : Str
  pub status : Status
  pub answer : Option A
  pub error : Option Str
  pub latency_ms : Option ℕ

abbrev pub Awaited : Type 0 → Type 0
Awaited A = Result A × ℕ

module _ {A : Type 0} where
  unfoldable pub skipped_result : Str → Str → ProviderResult A
  skipped_result provider reason = record {
    provider = provider;
    status = Status.skipped;
    answer = none;
    error = some reason;
    latency_ms = none;
  }

  -- The `except` clauses for an ArgusError, by the base that its class has in core/errors.py.
  abbrev of_role : Role → Str → Str → ℕ → ProviderResult A
  of_role Role.unconfigured provider message latency = record {
    provider = provider;
    status = Status.unconfigured;
    answer = none;
    error = some message;
    latency_ms = none;
  }
  of_role Role.unavailable provider message latency = record {
    provider = provider;
    status = Status.unavailable;
    answer = none;
    error = some message;
    latency_ms = some latency;
  }
  of_role Role.timeout provider message latency = record {
    provider = provider;
    status = Status.unavailable;
    answer = none;
    error = some message;
    latency_ms = some latency;
  }
  of_role Role.plain provider message latency = record {
    provider = provider;
    status = Status.error;
    answer = none;
    error = some message;
    latency_ms = some latency;
  }

  -- `limit` is the text of the timeout in seconds.
  unfoldable pub run_one : Str → Str → Awaited A → ProviderResult A
  run_one provider limit (Result.ok a, latency) = record {
    provider = provider;
    status = Status.ok;
    answer = some a;
    error = none;
    latency_ms = some latency;
  }
  run_one provider limit (Result.raise builtin_timeout, latency) = record {
    provider = provider;
    status = Status.timeout;
    answer = none;
    error = some (str "timed out after " ++ limit ++ str "s");
    latency_ms = some latency;
  }
  run_one provider limit (Result.raise (argus class message), latency) =
      of_role (role class) provider message latency
  run_one provider limit (Result.raise (not_implemented message), latency) =
      of_role Role.plain provider message latency
  run_one provider limit (Result.raise (unexpected message), latency) =
      of_role Role.plain provider message latency

  unfoldable pub gather_with_timeout : Dict (Awaited A) → Str → Dict (ProviderResult A)
  unfolding run_one
  gather_with_timeout tasks limit = map (λ t. (t.0, run_one t.0 limit t.1)) tasks

  -- The results as the tasks end, under their keys: `ended` has the task that ends last in front.
  unfoldable pub finished : (limit : Str) → (ended : Dict (Awaited A)) → Dict (ProviderResult A)
  unfolding run_one Dict.put
  finished limit [] = []
  finished limit ((key, t) ∷ ended) = Dict.put (finished limit ended) key (run_one key limit t)

  abbrev pub with_result :
      Str → Option (ProviderResult A) → Dict (ProviderResult A) → Dict (ProviderResult A)
  with_result key none rest = rest
  with_result key (some r) rest = (key, r) ∷ rest

  -- `dict(zip(keys, results))`, where gather has the results in the order of the keys.
  unfoldable pub zipped : (keys : List Str) → Dict (ProviderResult A) → Dict (ProviderResult A)
  unfolding Dict.get
  zipped [] results = []
  zipped (key ∷ keys) results = with_result key (Dict.get results key) (zipped keys results)

  -- `r.status not in ("ok", "skipped")`
  abbrev pub is_degraded : ProviderResult A → Bool
  is_degraded r = elim r.status [ Status.ok ↦ false | Status.skipped ↦ false | _ ↦ true ]
