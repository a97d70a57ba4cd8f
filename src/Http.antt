-- ===== src/Http.antt =====
-- The calls that the providers make of the HTTP client library: a request, and how it ended. A client
-- carries the caller's token or the configured account; what it sends along is part of the given
-- function.
use argus_mcp_server.Dict.{Dict}
use argus_mcp_server.Prelude.{ℕ, Str, Bool, ◌&&◌, Option, leb}
use argus_mcp_server.Values.{Value}

pub data Method : Type 0 where
  get put post : Method

pub record Call : Type 0 where
  pub method : Method
  pub path : Str
  pub params : Dict Str
  pub json : Option Value

-- `json` is none where the body is no JSON; `error` is the text of the HTTPStatusError that
-- `raise_for_status` raises.
pub record Reply : Type 0 where
  pub status : ℕ
  pub reason_phrase : Str
  pub body : Str
  pub json : Option Value
  pub error : Str

-- TimeoutException, any other HTTPError, or a response.
pub data Ended : Type 0 where
  timed_out : Ended
  failed : (detail : Str) → Ended
  answered : Reply → Ended

abbrev pub Http : Type 0 → Type 0
Http W = Call → W → Ended × W

-- `raise_for_status` raises for every other status.
abbrev pub is_success : ℕ → Bool
is_success status = leb 200 status && leb status 299
