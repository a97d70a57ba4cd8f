-- ===== src/KnowledgeHub/Session.antt =====
-- When an expired session shows to the caller.
use argus_mcp_server.Errors.{Result, ok, raise}
use argus_mcp_server.Prelude.{
  Option, Str, str, Bool, true, false, ◌&&◌, ◌≡◌, ◌≢◌, refl, arith, Bool-cases, inl, inr, truthy,
  if◌then◌else◌, ◌==◌, nat_eq,
}
use argus_mcp_server.Values.{Value}
use argus_mcp_server.KnowledgeHub.{
  Client, Response, Outcome, done, session_expired, Post, check_status, send, received,
  received_checked, notified, notified_checked, handshaken, locked, ensure_initialized, attempted,
  ready, keeps_dropping, rpc,
}

-- No session id is held while the handshake is not done.
abbrev pub IsFresh : Client → Type 0
IsFresh c = c.initialized ≡ false → truthy c.session_id ≡ false

-- While a call awaits the lock, other calls keep a client so.
abbrev pub KeepsFresh : {W : Type 0} → (Client → W → Client × W) → Type 0
KeepsFresh {W} wait = (c : Client) (w : W) → IsFresh c → IsFresh (wait c w).0

-- While a call awaits a response, other calls give no session id to a client that holds none.
abbrev pub SetsNoSession : {W : Type 0} → Post W → Type 0
SetsNoSession {W} post =
    (session : Option Str) (method : Str) (c : Client) (w : W)
    → truthy c.session_id ≡ false
    → truthy (post session method c w).1.session_id ≡ false

module _ {W : Type 0} (post : Post W) (wait : Client → W → Client × W) where
  checked_live :
      (c : Client) (r : Response) (status : Result (Unit {0})) (w : W)
      → (received_checked post c r status w).0 ≢ session_expired
  checked_live c r (raise e) w = ground arith
  checked_live c r (ok u) w = ground arith

  received_live :
      (r : Result Response × Client × W)
      → truthy r.1.session_id ≡ false
      → (received post r).0 ≢ session_expired
  received_live (raise e, c, w) h = ground arith
  received_live (ok r, c, w) h = ground (arith, h)

  received_fresh :
      (r : Result Response × Client × W)
      → (received post r).0 ≡ session_expired
      → truthy (received post r).1.session_id ≡ false
  received_fresh (raise e, c, w) h = absurd (ground arith)
  received_fresh (ok r, c, w) h = elim (Bool-cases (r.status == 404 && truthy c.session_id)) [
    | inl dropped ↦ rw dropped refl
    | inr kept ↦ absurd (checked_live c r (check_status r) w (ground (arith, kept)))
  ]

  notified_checked_live :
      (c : Client) (status : Result (Unit {0})) (w : W)
      → (notified_checked post c status w).0 ≢ session_expired
  notified_checked_live c (raise e) w = ground arith
  notified_checked_live c (ok u) w = ground arith

  notified_live : (r : Result Response × Client × W) → (notified post r).0 ≢ session_expired
  notified_live (raise e, c, w) = ground arith
  notified_live (ok r, c, w) = notified_checked_live c (check_status r) w

  handshaken_live :
      (r : Outcome Value × Client × W)
      → r.0 ≢ session_expired
      → (handshaken post r).0 ≢ session_expired
  handshaken_live (session_expired, c, w) h = absurd (h refl)
  handshaken_live (done (raise e), c, w) h = ground arith
  handshaken_live (done (ok v), c, w) h =
      notified_live (post c.session_id (str "notifications/initialized") c w)

  either_live :
      (b : Bool) (x y : Outcome (Unit {0}) × Client × W)
      → x.0 ≢ session_expired
      → (b ≡ false → y.0 ≢ session_expired)
      → (if b then x else y).0 ≢ session_expired
  either_live true x y hx hy = hx
  either_live false x y hx hy = hy refl

  locked_live :
      (p : Client × W) → SetsNoSession post → IsFresh p.0 → (locked post p).0 ≢ session_expired
  unfolding send
  locked_live (c, w) quiet fresh =
      either_live c.initialized (done (ok tt), c, w) _ (ground arith)
        (λ not_yet. handshaken_live (received post (post c.session_id (str "initialize") c w)) (
          received_live (post c.session_id (str "initialize") c w)
            (quiet c.session_id (str "initialize") c w (fresh not_yet))))

  ensure_live :
      (c : Client) (w : W)
      → SetsNoSession post
      → KeepsFresh wait
      → IsFresh c
      → (ensure_initialized post wait c w).0 ≢ session_expired
  unfolding ensure_initialized
  ensure_live c w quiet calm fresh =
      either_live c.initialized (done (ok tt), c, w) (locked post (wait c w)) (ground arith)
        (λ not_yet. locked_live (wait c w) quiet (calm c w fresh))

  attempted_live :
      (again : Client → W → Outcome Value × Client × W) (r : Outcome Value × Client × W)
      → (r.0 ≡ session_expired → truthy r.1.session_id ≡ false)
      → ((c : Client) (w : W) → IsFresh c → (again c w).0 ≢ session_expired)
      → (attempted post wait again r).0 ≢ session_expired
  attempted_live again (done x, c, w) dropped h = ground arith
  attempted_live again (session_expired, c, w) dropped h = h c w (λ e. dropped refl)

  ready_live :
      (again : Client → W → Outcome Value × Client × W) (method : Str)
      (r : Outcome (Unit {0}) × Client × W)
      → r.0 ≢ session_expired
      → ((c : Client) (w : W) → IsFresh c → (again c w).0 ≢ session_expired)
      → (ready post wait again method r).0 ≢ session_expired
  unfolding send
  ready_live again method (session_expired, c, w) live h = absurd (live refl)
  ready_live again method (done (raise e), c, w) live h = ground arith
  ready_live again method (done (ok u), c, w) live h =
      attempted_live again (received post (post c.session_id method c w))
        (received_fresh (post c.session_id method c w)) h

  keeps_dropping_live :
      (c : Client) (w : W) → IsFresh c → (keeps_dropping post wait c w).0 ≢ session_expired
  keeps_dropping_live c w fresh = ground arith

  -- A client holds no session id before its handshake, other calls give it none while a call awaits a
  -- response and it holds none, and they keep it so while the call awaits the lock. Then the call never
  -- shows an expired session to its caller, however often the hub drops the session: it answers or
  -- raises an error of its own. What other calls do besides, also to a session that is held, is open.
  pub rpc-IsFresh :
      (is_configured : Bool) (method : Str) (c : Client) (w : W)
      → SetsNoSession post
      → KeepsFresh wait
      → IsFresh c
      → (rpc post wait is_configured method c w).0 ≢ session_expired
  unfolding rpc
  rpc-IsFresh true method c w quiet calm fresh =
      ready_live
        (λ c' w'.
          ready post wait (keeps_dropping post wait) method (ensure_initialized post wait c' w'))
        method (ensure_initialized post wait c w) (ensure_live c w quiet calm fresh)
        (λ c' w' fresh'.
          ready_live (keeps_dropping post wait) method (ensure_initialized post wait c' w')
            (ensure_live c' w' quiet calm fresh') keeps_dropping_live)
  rpc-IsFresh false method c w quiet calm fresh = ground arith
