-- ===== src/Fanout/Tests.antt =====
-- A fan-out of which one call fails and one is cut off.
use argus_mcp_server.Dict
use argus_mcp_server.Dict.{Dict}
use argus_mcp_server.Errors.{Result, argus, builtin_timeout, ErrorClass}
use argus_mcp_server.Prelude.{ℕ, str, [], ◌∷◌, str_eq}
use argus_mcp_server.Fanout.{Awaited}

abbrev calls : Dict (Awaited ℕ)
calls =
    (
      str "live_pvs",
      (Result.raise (argus ErrorClass.epics_unconfigured (str "no address list")), 1),
    )
    ∷ (str "pod", (Result.ok 7, 12))
    ∷ (str "logbook", (Result.raise builtin_timeout, 3000))
    ∷ []

abbrev by_end : Dict (Awaited ℕ)
by_end =
    (str "logbook", (Result.raise builtin_timeout, 3000))
    ∷ (str "pod", (Result.ok 7, 12))
    ∷ (
      str "live_pvs",
      (Result.raise (argus ErrorClass.epics_unconfigured (str "no address list")), 1),
    )
    ∷ []

abbrev answered : Awaited ℕ
answered = (Result.ok 7, 12)
