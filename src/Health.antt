-- ===== src/Health.antt =====
-- The health of a provider, of argus/providers/base.py, and what the checks of
-- argus/providers/saverestore/saverestore.py, argus/providers/logbook/logbook.py and
-- argus/providers/loki/loki.py share: one GET, and a status that never is an exception.
use argus_mcp_server.Http.{Http, Method, Ended, timed_out, failed, answered}
use argus_mcp_server.Prelude.{ℕ, Str, Bool, [], Option, none, some, if◌then◌else◌, leb}

pub data ProviderStatus : Type 0 where
  available unconfigured unavailable : ProviderStatus

pub record ProviderHealth : Type 0 where
  pub name : Str
  pub status : ProviderStatus
  pub detail : Option Str

-- `resp.status_code < 500`
abbrev pub below_500 : (name : Str) → (status : ℕ) → ProviderHealth
below_500 name status =
    if leb 500 status
    then record { name = name; status = unavailable; detail = none }
    else record { name = name; status = available; detail = none }

module _ {W : Type 0} (http : Http W) (timeout_text : Str) (name : Str)
    (by_status : ℕ → ProviderHealth) where
  -- `except httpx.HTTPError`, a timeout among them.
  abbrev ended_health : Ended → ProviderHealth
  ended_health timed_out = record { name = name; status = unavailable; detail = some timeout_text }
  ended_health (failed detail) = record { name = name; status = unavailable; detail = some detail }
  ended_health (answered reply) = by_status reply.status

  unfoldable pub check_health : (configured : Bool) → (path : Str) → W → ProviderHealth × W
  check_health configured path w =
      if configured
      then (let (ended, w') =
            http (record { method = Method.get; path = path; params = []; json = none }) w in
          (ended_health ended, w'))
      else (record { name = name; status = unconfigured; detail = none }, w)
