-- ===== src/KnowledgeHub.antt =====
-- argus/providers/knowledge_hub/client.py: the MCP session with the Knowledge Hub, the workspaces
-- that are asked in, and the fan-out over them. `post` is what the HTTP client gives, with the message
-- parsed from the body. The client is shared: while a call awaits a response, or the lock of the
-- handshake, other calls may change it, so `post` and `wait` are given the client and give it as they
-- leave it.
pub mod Inventory
pub mod Session
pub mod Fanout
pub mod Paging
pub mod Complete
pub mod Wire
pub mod Calls
pub mod Streams
pub mod Tests
use argus_mcp_server.Dict
use argus_mcp_server.Dict.{Dict}
use argus_mcp_server.Errors.{
  Exception, argus, not_implemented, builtin_timeout, unexpected, ErrorClass, Result, ok, raise,
  ◌>>=◌,
}
use argus_mcp_server.Prelude.{
  ℕ, zero, suc, Str, str, ◌++◌, Bool, true, false, ◌&&◌, ◌||◌, List, [], ◌∷◌, Option, none, some,
  any, map, keep, join, if◌then◌else◌, ◌==◌, str_eq, nat_eq, leb, nonempty, truthy, or_else, split,
  strip, show,
}
use argus_mcp_server.Values.{Value}

pub record HubWorkspace : Type 0 where
  pub id : Str
  pub name : Str
  pub shared : Bool

-- An HTTP response: its status, its Mcp-Session-Id header, what is said of an error, and the
-- JSON-RPC result or the query error that its message is.
pub record Response : Type 0 where
  pub status : ℕ
  pub session : Option Str
  pub detail : Str
  pub message : Result Value

pub record Client : Type 0 where
  pub session_id : Option Str
  pub initialized : Bool

-- How a request ends: with a result or an exception, or with `_SessionExpired`.
pub data Outcome (A : Type 0) : Type 0 where
  done : Result A → Outcome A
  session_expired : Outcome A

-- POST of a method with the session id that is held: the response, and the client as other calls have
-- left it when the response comes.
abbrev pub Post : Type 0 → Type 0
Post W = (session : Option Str) → (method : Str) → Client → W → Result Response × Client × W

unfoldable pub check_status : Response → Result (Unit {0})
check_status r =
    if r.status == 401 || r.status == 403
    then raise (
        argus ErrorClass.knowledge_hub_auth_error (
          str "The Knowledge Hub refused the token (HTTP "
          ++ show r.status
          ++ str "): "
          ++ r.detail))
    else (if leb 400 r.status
        then raise (
            argus ErrorClass.knowledge_hub_unavailable
              (str "Knowledge Hub returned HTTP " ++ show r.status ++ str ": " ++ r.detail))
        else ok tt)

-- `if session_id := resp.headers.get(...)`
abbrev pub keep_session : Client → Option Str → Client
keep_session c none = c
keep_session c (some []) = c
keep_session c (some (x ∷ id)) = record c { session_id = some (x ∷ id) }

module _ {W : Type 0} (post : Post W) where
  abbrev pub received_checked :
      Client → Response → Result (Unit {0}) → W → Outcome Value × Client × W
  received_checked c r (raise e) w = (done (raise e), c, w)
  received_checked c r (ok u) w = (done r.message, keep_session c r.session, w)

  -- `_send` after the POST.
  abbrev pub received : Result Response × Client × W → Outcome Value × Client × W
  received (raise e, c, w) = (done (raise e), c, w)
  received (ok r, c, w) =
      if r.status == 404 && truthy c.session_id
      then (session_expired, record { session_id = none; initialized = false }, w)
      else received_checked c r (check_status r) w

  unfoldable pub send : (method : Str) → Client → W → Outcome Value × Client × W
  unfolding check_status
  send method c w = received (post c.session_id method c w)

  abbrev pub notified_checked : Client → Result (Unit {0}) → W → Outcome (Unit {0}) × Client × W
  notified_checked c (raise e) w = (done (raise e), c, w)
  notified_checked c (ok u) w = (done (ok tt), record c { initialized = true }, w)

  abbrev pub notified : Result Response × Client × W → Outcome (Unit {0}) × Client × W
  notified (raise e, c, w) = (done (raise e), c, w)
  notified (ok r, c, w) = notified_checked c (check_status r) w

  -- After the `initialize` request: the notification.
  abbrev pub handshaken : Outcome Value × Client × W → Outcome (Unit {0}) × Client × W
  handshaken (session_expired, c, w) = (session_expired, c, w)
  handshaken (done (raise e), c, w) = (done (raise e), c, w)
  handshaken (done (ok v), c, w) =
      notified (post c.session_id (str "notifications/initialized") c w)

  -- Under the lock.
  abbrev pub locked : Client × W → Outcome (Unit {0}) × Client × W
  locked (c, w) =
      if c.initialized then (done (ok tt), c, w) else handshaken (send (str "initialize") c w)

module _ {W : Type 0} (post : Post W) (wait : Client → W → Client × W) where
  unfoldable pub ensure_initialized : Client → W → Outcome (Unit {0}) × Client × W
  unfolding send
  ensure_initialized c w = if c.initialized then (done (ok tt), c, w) else locked post (wait c w)

  -- The attempts that are left. The handshake stands before the `try`, so a session that expires in
  -- it is not caught.
  abbrev pub attempted :
      (Client → W → Outcome Value × Client × W)
      → Outcome Value × Client × W
      → Outcome Value × Client × W
  attempted again (done r, c, w) = (done r, c, w)
  attempted again (session_expired, c, w) = again c w

  abbrev pub ready :
      (Client → W → Outcome Value × Client × W)
      → (method : Str) → Outcome (Unit {0}) × Client × W
      → Outcome Value × Client × W
  ready again method (session_expired, c, w) = (session_expired, c, w)
  ready again method (done (raise e), c, w) = (done (raise e), c, w)
  ready again method (done (ok u), c, w) = attempted again (send post method c w)

  abbrev pub keeps_dropping : Client → W → Outcome Value × Client × W
  keeps_dropping c w = (
    done (
        raise (
          argus ErrorClass.knowledge_hub_unavailable
            (str "The Knowledge Hub keeps dropping the MCP session."))),
    c,
    w,
  )

  unfoldable pub rpc :
      (is_configured : Bool) → (method : Str) → Client → W → Outcome Value × Client × W
  unfolding ensure_initialized send
  rpc is_configured method c w =
      if is_configured
      then ready (λ c' w'. ready keeps_dropping method (ensure_initialized c' w')) method
          (ensure_initialized c w)
      else (
        done (
            raise (
              argus ErrorClass.knowledge_hub_unconfigured (
                str "The ARGUS Knowledge Hub is not configured (set KNOWLEDGE_HUB_URL and "
                ++ str "KNOWLEDGE_HUB_TOKEN)."))),
        c,
        w,
      )

-- `[w.strip() for w in (workspaces or "").split(",") if w.strip()]`
unfoldable pub configured_workspaces : Option Str → List Str
unfolding split strip
configured_workspaces workspaces = keep nonempty (map strip (split 44 (or_else workspaces [])))

-- `{w.id: w for w in available}`
abbrev pub by_id : Dict HubWorkspace → List HubWorkspace → Dict HubWorkspace
by_id found [] = found
by_id found (w ∷ ws) = by_id (Dict.put found w.id w) ws

unfoldable pub readable : Dict HubWorkspace → List Str → List HubWorkspace
readable found [] = []
readable found (w ∷ ws) = elim (Dict.get found w) [
  | none ↦ readable found ws
  | some workspace ↦ workspace ∷ readable found ws
]

-- Of the workspaces that the token may read, those that are configured, or all.
unfoldable pub list_workspaces :
    (configured : List Str) (available : List HubWorkspace) → List HubWorkspace
unfolding readable
list_workspaces [] available = available
list_workspaces (c ∷ configured) available = readable (by_id [] available) (c ∷ configured)

abbrev no_workspace : List Str → Str
no_workspace [] = str "the token may read no workspace"
no_workspace (c ∷ configured) =
    str "none of KNOWLEDGE_HUB_WORKSPACES ("
    ++ join (str ", ") (c ∷ configured)
    ++ str ") is readable with this token"

abbrev all_ids : List Str → List Str → Result (List Str)
all_ids configured [] = raise (
    argus ErrorClass.knowledge_hub_query_error
      (str "No Knowledge Hub workspace to ask in: " ++ no_workspace configured ++ str "."))
all_ids configured (id ∷ ids) = ok (id ∷ ids)

unfoldable pub workspace_ids :
    (repr : Str → Str) (configured : List Str) (available : List HubWorkspace) (only : Option Str)
    → Result (List Str)
unfolding list_workspaces
workspace_ids repr configured available only =
    let ids = map (λ (w : HubWorkspace). w.id) (list_workspaces configured available) in
    if truthy only
    then (if any (λ id. id == or_else only []) ids
        then ok (or_else only [] ∷ [])
        else raise (
            argus ErrorClass.knowledge_hub_query_error (
              str "Workspace "
              ++ repr (or_else only [])
              ++ str " is not one this server asks in; known workspaces: "
              ++ or_else (some (join (str ", ") ids)) (str "none")
              ++ str ".")))
    else all_ids configured ids

-- `str(exc)`
abbrev pub message_of : Exception → Str
message_of (argus class message) = message
message_of (not_implemented message) = message
message_of builtin_timeout = []
message_of (unexpected message) = message

module _ {T : Type 0} where
  -- The loop over the outcomes, with the first error.
  unfoldable pub collect :
      Dict T
      → Dict Str
      → Option Exception
      → List (Str × Result T)
      → Dict T × Dict Str × Option Exception
  collect results errors first [] = (results, errors, first)
  collect results errors first ((ws, ok t) ∷ outcomes) =
      collect (Dict.put results ws t) errors first outcomes
  collect results errors none ((ws, raise e) ∷ outcomes) =
      collect results (Dict.put errors ws (message_of e)) (some e) outcomes
  collect results errors (some first) ((ws, raise e) ∷ outcomes) =
      collect results (Dict.put errors ws (message_of e)) (some first) outcomes

  abbrev pub degrade : Dict T × Dict Str × Option Exception → Result (Dict T × Dict Str)
  degrade ([], errors, some e) = raise e
  degrade ([], errors, none) = ok ([], errors)
  degrade (r ∷ results, errors, first) = ok (r ∷ results, errors)

  unfoldable pub for_each_workspace : List Str → (Str → Result T) → Result (Dict T × Dict Str)
  unfolding collect
  for_each_workspace workspaces fn =
      degrade (collect [] [] none (map (λ ws. (ws, fn ws)) workspaces))
