-- ===== src/Registry/Swapped.antt =====
-- An id that was given for one call, sent with another one, through `dispatch`.
use argus_mcp_server.Dict
use argus_mcp_server.Dict.{Dict}
use argus_mcp_server.Effects.{Effect}
use argus_mcp_server.Prelude.{Str, str, true, some, ◌++◌, ◌≡◌, arith}
use mathlib.Core.Path.{subst}
use argus_mcp_server.Values.{Value}
use argus_mcp_server.Confirmation.{without_confirmation, canonical, issue}
use argus_mcp_server.Confirmation.Binding.{IsRequest, SameRequest, redeem-SameRequest}
use argus_mcp_server.Confirmation.Redeem.{IsStore, issue-IsStore, redeem-Confirms}
use argus_mcp_server.Registry.{
  ToolDefinition, State, CallContext, needs_confirmation, given_id, dispatch,
}
use argus_mcp_server.Registry.Gate.{caller_of, Confirmed, dispatch-Unconfirmed}

-- The same caller, the same tool and the same arguments.
abbrev pub SameRepeat :
    (sha256 : Str → Str) (c₁ c₂ : CallContext) (shown : Str) (a : Dict Value) (tool : Str)
    (b : Dict Value)
    → Type 0
SameRepeat sha256 c₁ c₂ shown a tool b =
    (caller_of sha256 c₁ ≡ caller_of sha256 c₂) × SameRequest shown a tool b

-- The text of which a call's fingerprint is the hash.
abbrev pub request_text : Str → Dict Value → Str
request_text tool arguments = canonical tool (without_confirmation arguments)

module _ (sha256 : Str → Str) (repr : Value → Str) {W : Type 0} (c₁ c₂ : CallContext)
    (tools tools' : Dict (ToolDefinition W)) (name shown : Str) (a b : Dict Value) (s : State W)
    (w : W) (tool : ToolDefinition W) (other : Dict Value → Effect W (Dict Value)) where
  -- The state after the first call, which was for the tool `shown` and was given an id.
  abbrev pub after_issue : State W
  after_issue = record {
    confirmations =
        (issue sha256 s.confirmations c₁.now c₁.random shown (without_confirmation a)
          (caller_of sha256 c₁)).0;
    world = w;
  }

  -- A call was given an id. Another call of a tool to be confirmed that comes with this id never reaches
  -- its handler where it is from another caller, for another tool, or with arguments of another text
  -- under some key, if sha256 does not collide on the two texts: the reply and the state are the same
  -- with any other handler in its place.
  pub dispatch_swapped :
      Dict.get tools name ≡ some tool
      → Dict.get tools' name ≡ some (record tool { handler = other })
      → needs_confirmation tool c₂.confirm_writes ≡ true
      → IsStore s.confirmations
      → IsRequest shown (without_confirmation a)
      → IsRequest tool.name (without_confirmation b)
      → (sha256 (request_text shown a) ≡ sha256 (request_text tool.name b)
          → request_text shown a ≡ request_text tool.name b)
      → given_id repr b ≡ some (str "confirm-" ++ c₁.random)
      → ¬ SameRepeat sha256 c₁ c₂ shown (without_confirmation a) tool.name (without_confirmation b)
      → dispatch sha256 repr c₂ tools name b after_issue
        ≡ dispatch sha256 repr c₂ tools' name b after_issue
  dispatch_swapped known known' gated store request repeat no_collision with_id differs =
      let held =
        issue-IsStore sha256 s.confirmations c₁.now c₁.random shown (without_confirmation a)
          (caller_of sha256 c₁) store in
      dispatch-Unconfirmed sha256 repr c₂ tools tools' name b after_issue tool other known known'
        gated held
        (λ id given confirms.
          let same_id : id ≡ str "confirm-" ++ c₁.random = ground (arith, given, with_id) in
          differs (
            redeem-SameRequest sha256 s.confirmations c₁.now c₂.now c₁.random shown tool.name
              (without_confirmation a) (without_confirmation b) (caller_of sha256 c₁)
              (caller_of sha256 c₂) store request repeat no_collision
              ((redeem-Confirms sha256 after_issue.confirmations c₂.now
                  (str "confirm-" ++ c₁.random) tool.name (without_confirmation b)
                  (caller_of sha256 c₂) held).1
                (subst (Confirmed sha256 repr c₂ b after_issue tool) same_id confirms))))
