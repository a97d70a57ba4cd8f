-- ===== src/Correlation/Tests.antt =====
-- A request with a bearer token.
use argus_mcp_server.Dict
use argus_mcp_server.Dict.{Dict}
use argus_mcp_server.Prelude.{
  Str, str, [], ◌∷◌, some, ◌≡◌, refl, strip, lower, str_beq, is_space, lstrip, lower_char,
  starts_with, contains,
}
use argus_mcp_server.Correlation.{extract_caller_token, caller_token_header}
use argus_mcp_server.Correlation.Caller.{extract_caller_token-IsToken, IsToken, IsCut}

abbrev headers : Dict Str
headers = (caller_token_header, str " Bearer abc.def ") ∷ []

extract_caller_token-IsToken_example :
    (value : Str) × (Dict.get headers caller_token_header ≡ some value)
    × IsCut (strip value) (str "abc.def")
    × IsToken (str "abc.def")
unfolding extract_caller_token strip lstrip is_space lower lower_char str_beq starts_with contains
    Dict.get
extract_caller_token-IsToken_example = extract_caller_token-IsToken headers (str "abc.def") refl
