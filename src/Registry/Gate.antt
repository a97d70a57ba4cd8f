-- ===== src/Registry/Gate.antt =====
-- When the handler of a tool that is confirmed in two steps runs.
use argus_mcp_server.Dict
use argus_mcp_server.Dict.{Dict}
use argus_mcp_server.Errors.{Result, ok, raise}
use argus_mcp_server.Prelude.{Str, true, Option, none, some, ◌≡◌, ◌≢◌, refl, ap, ◌∙◌, sym, arith}
use argus_mcp_server.Values.{Value}
use argus_mcp_server.Confirmation.{
  ConfirmationStore, without_confirmation, caller_key, redeem, Refusal,
}
use argus_mcp_server.Confirmation.Redeem.{IsStore, Confirms, redeem-Confirms}
use argus_mcp_server.Registry.Response.{Json}
use argus_mcp_server.Registry.{
  ToolDefinition, State, CallContext, Effect, needs_confirmation, preview, given_id, attempt,
  dispatch, run_handler, respond, confirmation_gate, after_gate, ask, stand_in,
}

abbrev pub caller_of : (Str → Str) → CallContext → Str
caller_of sha256 c = caller_key sha256 c.caller_token c.correlation

stand_in_blocks : (r : Result Json) → stand_in r ≢ ok none
stand_in_blocks (ok response) e = cc
stand_in_blocks (raise x) e = cc

module _ (sha256 : Str → Str) (repr : Value → Str) {W : Type 0} where
  -- The reply of the handler, run on the arguments without the id.
  abbrev pub handled : ToolDefinition W → Dict Value → State W → Json × State W
  handled tool arguments s =
      let (result, s') = run_handler tool (without_confirmation arguments) s in (respond result, s')

  ask_blocks :
      (c : CallContext) (tool : ToolDefinition W) (call_args : Dict Value) (caller : Str)
      (s : State W) (previewed : Result Str × W)
      → (ask sha256 repr c tool call_args caller s previewed).0 ≢ ok none
  unfolding ask
  ask_blocks c tool call_args caller s (raise e, w) = λ x. cc
  ask_blocks c tool call_args caller s (ok action, w) = stand_in_blocks _

  module _ (c : CallContext) (arguments : Dict Value) (s : State W) (tool : ToolDefinition W) where
    abbrev pub Confirmed : Str → Type 0
    Confirmed id =
        Confirms sha256 s.confirmations c.now id tool.name (without_confirmation arguments)
          (caller_of sha256 c)

    -- No id is given, or the store does not confirm this call under it.
    abbrev pub Unconfirmed : Type 0
    Unconfirmed = (id : Str) → given_id repr arguments ≡ some id → ¬ Confirmed id

  module _ (c : CallContext) (tools : Dict (ToolDefinition W)) (name : Str) (arguments : Dict Value)
      (s : State W) (tool : ToolDefinition W) (known : Dict.get tools name ≡ some tool)
      (gated : needs_confirmation tool c.confirm_writes ≡ true) where
    abbrev redeemed : Str → ConfirmationStore × Option Refusal
    redeemed id =
        redeem sha256 s.confirmations c.now id tool.name (without_confirmation arguments)
          (caller_of sha256 c)

    abbrev answer : Result (Option Json) × State W → Json × State W
    answer g = let (result, s') = after_gate tool arguments g in (respond result, s')

    -- A call of a tool to be confirmed is answered by what follows the gate.
    pub dispatch_gated :
        dispatch sha256 repr c tools name arguments s
        ≡ answer (confirmation_gate sha256 repr c tool arguments s)
    unfolding dispatch attempt
    dispatch_gated = rw (known, dispatch) (rw (gated, attempt))

    gate-Confirms :
        (id : Str)
        → given_id repr arguments ≡ some id
        → IsStore s.confirmations
        → Confirmed c arguments s tool id
        → confirmation_gate sha256 repr c tool arguments s
          ≡ (ok none, record s { confirmations = (redeemed id).0 })
    unfolding confirmation_gate
    gate-Confirms id given store confirms =
        rw (given, confirmation_gate)
          (ground (
            arith,
            (redeem-Confirms sha256 s.confirmations c.now id tool.name
                  (without_confirmation arguments) (caller_of sha256 c) store).1
                confirms,
          ))

    -- A call of a tool to be confirmed, with an id that the store confirms for it, runs the handler on
    -- the call's other arguments, in the store from which the id is gone.
    pub dispatch-Confirms :
        (id : Str)
        → given_id repr arguments ≡ some id
        → IsStore s.confirmations
        → Confirmed c arguments s tool id
        → dispatch sha256 repr c tools name arguments s
          ≡ handled tool arguments (record s { confirmations = (redeemed id).0 })
    unfolding after_gate
    dispatch-Confirms id given store confirms =
        dispatch_gated ∙ ap answer (gate-Confirms id given store confirms)

    gate-Unconfirmed :
        IsStore s.confirmations
        → Unconfirmed c arguments s tool
        → (given : Option Str) → given_id repr arguments ≡ given
        → (confirmation_gate sha256 repr c tool arguments s).0 ≢ ok none
    unfolding confirmation_gate
    gate-Unconfirmed store un none e =
        rw (e, confirmation_gate)
          (ask_blocks c tool (without_confirmation arguments) (caller_of sha256 c) s
            (preview repr tool (without_confirmation arguments) s.world))
    gate-Unconfirmed store un (some id) e =
        rw (e, confirmation_gate)
          (ground (
            arith,
            un id e,
            (redeem-Confirms sha256 s.confirmations c.now id tool.name
                (without_confirmation arguments) (caller_of sha256 c) store).0,
          ))

  after_gate_blocked :
      (tool : ToolDefinition W) (other : Dict Value → Effect W (Dict Value))
      (arguments : Dict Value) (g : Result (Option Json) × State W)
      → g.0 ≢ ok none
      → after_gate tool arguments g ≡ after_gate (record tool { handler = other }) arguments g
  unfolding after_gate
  after_gate_blocked tool other arguments (raise e, s) h = refl
  after_gate_blocked tool other arguments (ok (some response), s) h = refl
  after_gate_blocked tool other arguments (ok none, s) h = absurd (h refl)

  gate_same :
      (c : CallContext) (tool : ToolDefinition W) (other : Dict Value → Effect W (Dict Value))
      (arguments : Dict Value) (s : State W)
      → confirmation_gate sha256 repr c (record tool { handler = other }) arguments s
        ≡ confirmation_gate sha256 repr c tool arguments s
  unfolding confirmation_gate ask preview
  gate_same c tool other arguments s = refl

  -- A call of a tool to be confirmed that the store does not confirm never reaches the handler: the
  -- reply and the state are the same with any other handler in its place.
  pub dispatch-Unconfirmed :
      (c : CallContext) (tools tools' : Dict (ToolDefinition W)) (name : Str)
      (arguments : Dict Value) (s : State W) (tool : ToolDefinition W)
      (other : Dict Value → Effect W (Dict Value))
      → Dict.get tools name ≡ some tool
      → Dict.get tools' name ≡ some (record tool { handler = other })
      → needs_confirmation tool c.confirm_writes ≡ true
      → IsStore s.confirmations
      → Unconfirmed c arguments s tool
      → dispatch sha256 repr c tools name arguments s
        ≡ dispatch sha256 repr c tools' name arguments s
  unfolding needs_confirmation
  dispatch-Unconfirmed c tools tools' name arguments s tool other known known' gated store un =
      dispatch_gated c tools name arguments s tool known gated
      ∙ ap (λ r. (respond r.0, r.1))
          (after_gate_blocked tool other arguments _
              (gate-Unconfirmed c tools name arguments s tool known gated store un _ refl)
            ∙ ap (after_gate (record tool { handler = other }) arguments)
                (sym (gate_same c tool other arguments s)))
      ∙ sym
          (dispatch_gated c tools' name arguments s (record tool { handler = other }) known' gated)
