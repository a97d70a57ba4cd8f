-- ===== src/Registry/TwoStep.antt =====
-- The two calls of one write, through `dispatch`.
use argus_mcp_server.Dict
use argus_mcp_server.Dict.{Dict}
use argus_mcp_server.Errors.{ok}
use argus_mcp_server.Prelude.{
  ◌+◌, ◌<◌, Str, str, Bool, true, ◌++◌, none, some, ◌≡◌, refl, ap, ◌∙◌, arith, keep, str_eq, List,
  [], ◌∷◌,
}
use argus_mcp_server.Values.{Value}
use argus_mcp_server.Confirmation.{ConfirmationStore, without_confirmation, issue, redeem}
use argus_mcp_server.Confirmation.Redeem.{IsStore, redeem-Confirms, issue-IsStore}
use argus_mcp_server.Confirmation.History.{SameCall, redeem-issue}
use argus_mcp_server.Registry.Response.{Json, json_response}
use argus_mcp_server.Registry.Gate.{caller_of, handled, dispatch_gated, dispatch-Confirms}
use argus_mcp_server.Registry.{
  ToolDefinition, State, CallContext, needs_confirmation, preview, given_id, dispatch,
  confirmation_gate, after_gate, ask, required_payload, respond,
}

keep-keep {ℓ} : {A : Type ℓ} (p : A → Bool) (xs : List A) → keep p (keep p xs) ≡ keep p xs
keep-keep p [] = refl
keep-keep p (x ∷ xs) = ground (arith, keep-keep p xs)

without_confirmation_idem :
    (a : Dict Value) → without_confirmation (without_confirmation a) ≡ without_confirmation a
unfolding without_confirmation
without_confirmation_idem a = keep-keep _ a

-- What `dispatch` passes on are the same arguments.
SameCall-without_confirmation :
    (a b : Dict Value) → SameCall a b → SameCall (without_confirmation a) (without_confirmation b)
SameCall-without_confirmation a b same = record {
  first = rw without_confirmation_idem same.first;
  second = rw without_confirmation_idem same.second;
  lookups = λ k. rw (without_confirmation_idem a, without_confirmation_idem b) (same.lookups k);
}

module _ (sha256 : Str → Str) (repr : Value → Str) {W : Type 0} (c₁ c₂ : CallContext)
    (tools : Dict (ToolDefinition W)) (name : Str) (a b : Dict Value) (s : State W)
    (tool : ToolDefinition W) (action : Str) (previewed : W) (response : Json) where
  -- The store and the id after the first call.
  abbrev pub issued : ConfirmationStore × Str
  issued =
      issue sha256 s.confirmations c₁.now c₁.random tool.name (without_confirmation a)
        (caller_of sha256 c₁)

  gate_first :
      given_id repr a ≡ none
      → preview repr tool (without_confirmation a) s.world ≡ (ok action, previewed)
      → json_response
          (required_payload tool.name (without_confirmation a) action issued.1 issued.0.ttl)
        ≡ ok response
      → confirmation_gate sha256 repr c₁ tool a s
        ≡ (ok (some response), record { confirmations = issued.0; world = previewed })
  unfolding confirmation_gate ask
  gate_first no_id previews rendered = rw (no_id, confirmation_gate) (rw previews (rw rendered))

  -- The replies to the two calls of one write. The first call gives no id; its preview succeeds, and
  -- the reply is the request for a confirmation, with the world as the preview left it. The second
  -- call has the id, the same arguments in any order and the same caller, and comes before the time
  -- to live has passed: it runs the handler.
  pub dispatch_twice :
      Dict.get tools name ≡ some tool
      → needs_confirmation tool c₁.confirm_writes ≡ true
      → needs_confirmation tool c₂.confirm_writes ≡ true
      → IsStore s.confirmations
      → given_id repr a ≡ none
      → preview repr tool (without_confirmation a) s.world ≡ (ok action, previewed)
      → json_response
          (required_payload tool.name (without_confirmation a) action issued.1 issued.0.ttl)
        ≡ ok response
      → given_id repr b ≡ some (str "confirm-" ++ c₁.random)
      → SameCall a b
      → caller_of sha256 c₁ ≡ caller_of sha256 c₂
      → c₂.now < c₁.now + s.confirmations.ttl
      → (dispatch sha256 repr c₁ tools name a s
          ≡ (response, record { confirmations = issued.0; world = previewed }))
        × (dispatch sha256 repr c₂ tools name b
              (record { confirmations = issued.0; world = previewed })
            ≡ handled sha256 repr tool b (record {
              confirmations =
                  (redeem sha256 issued.0 c₂.now
                    (str "confirm-" ++ c₁.random)
                    tool.name
                    (without_confirmation b)
                    (caller_of sha256 c₂)).0;
              world = previewed;
            }))
  unfolding after_gate
  dispatch_twice known gated₁ gated₂ store no_id previews rendered with_id same callers in_time = (
    dispatch_gated sha256 repr c₁ tools name a s tool known gated₁
        ∙ ap (λ g. let (result, s') = after_gate tool a g in (respond result, s'))
            (gate_first no_id previews rendered),
    dispatch-Confirms sha256 repr c₂ tools name b
        (record { confirmations = issued.0; world = previewed }) tool known gated₂
        (str "confirm-" ++ c₁.random) with_id
        (issue-IsStore sha256 s.confirmations c₁.now c₁.random tool.name (without_confirmation a)
          (caller_of sha256 c₁) store)
        ((redeem-Confirms sha256 issued.0 c₂.now (str "confirm-" ++ c₁.random) tool.name
            (without_confirmation b) (caller_of sha256 c₂)
            (issue-IsStore sha256 s.confirmations c₁.now c₁.random tool.name
              (without_confirmation a) (caller_of sha256 c₁) store)).0
          (rw (← callers) (
            redeem-issue sha256 s.confirmations c₁.now c₂.now c₁.random tool.name
              (without_confirmation a) (without_confirmation b) (caller_of sha256 c₁) store
              (SameCall-without_confirmation a b same)
            ∙ ground arith))),
  )
