-- ===== src/Tools/Restoring.antt =====
-- A restore that was not confirmed, from the request through build_registry's tools to the service.
use mathlib.Core.Path.{subst}
use argus_mcp_server.Confirmation.Redeem.{IsStore}
use argus_mcp_server.Correlation.{Request, context_of, handle_call_tool}
use argus_mcp_server.Dict
use argus_mcp_server.Dict.{Dict}
use argus_mcp_server.Effects.{Effect}
use argus_mcp_server.Prelude.{
  ℕ, Str, str, Bool, true, false, List, Option, none, some, ◌≡◌, refl, ap, ◌∙◌, arith, ◌==◌, str_eq,
  str_beq, Bool-cases, inl, inr, [],
}
use argus_mcp_server.Registry.{ToolDefinition, State, needs_confirmation}
use argus_mcp_server.Registry.Gate.{Unconfirmed, dispatch-Unconfirmed}
use argus_mcp_server.SaveRestore.{restore_preview}
use argus_mcp_server.SaveRestore.Nodes.{
  Failure, resolve_snapshot, list_snapshots, resolve_configuration,
}
use argus_mcp_server.Tools.{
  Services, ToolSettings, source_of, has_hub, tool_lists, register_lists, build_registry,
}
use argus_mcp_server.Tools.Arguments.{writing}
use argus_mcp_server.Tools.Beamline
use argus_mcp_server.Tools.Registered.{lists_of}
use argus_mcp_server.Tools.SaveRestore.{restore_saverestore_snapshot}
use argus_mcp_server.Tools.SaveRestore.Describe.{describe_restore}
use argus_mcp_server.Tools.Schemas.Beamline.{
  list_devices_schema, hub_list_devices_schema, yaml_description, hub_description,
}
use argus_mcp_server.Tools.Schemas.SaveRestore.{
  restore_schema, restore_saverestore_snapshot_description,
}
use argus_mcp_server.Values.{Value}

abbrev restore_name : Str
restore_name = str "restore_saverestore_snapshot"

module _ {W : Type 0} where
  abbrev found : Option (Dict (ToolDefinition W)) → Str → Option (ToolDefinition W)
  found none name = none
  found (some tools) name = Dict.get tools name

module _ {W Time : Type 0} (s : Services W Time) where
  abbrev pub restore_tool : ToolDefinition W
  restore_tool =
      record (writing restore_name restore_saverestore_snapshot_description restore_schema
        (restore_saverestore_snapshot s.saverestore s.reads s.inventory s.texts)
        (describe_restore s.saverestore s.texts)) { always_confirm = true }

  restore_listed :
      (description : Str) (schema : Dict Value) (hub : Bool)
      → found (register_lists s (some []) (lists_of s description schema hub)) restore_name
        ≡ some restore_tool
  unfolding register_lists tool_lists Dict.put Dict.get str_beq
  restore_listed description schema true = refl
  restore_listed description schema false = refl

  restore_built :
      (settings : Option ToolSettings) (tools : Dict (ToolDefinition W))
      → build_registry s settings ≡ some tools
      → Dict.get tools restore_name ≡ some restore_tool
  unfolding build_registry Beamline.tools
  restore_built settings tools e = elim (Bool-cases (source_of settings == str "knowledge_hub")) [
    | inl hub ↦
        subst (λ o. found o restore_name ≡ some restore_tool) {y = some tools}
          (ground (arith, e, hub))
          (restore_listed hub_description hub_list_devices_schema (has_hub settings))
    | inr no_hub ↦ elim (Bool-cases (source_of settings == str "yaml")) [
      | inl yaml ↦
          subst (λ o. found o restore_name ≡ some restore_tool) {y = some tools}
            (ground (arith, e, no_hub, yaml))
            (restore_listed yaml_description list_devices_schema (has_hub settings))
      | inr no_yaml ↦ absurd (ground (arith, e, no_hub, no_yaml))
    ]
  ]

module _ {W Time : Type 0} (s : Services W Time) (other : Str → Effect W (List Failure)) where
  -- The services whose save-and-restore provider restores by `other`.
  abbrev pub other_services : Services W Time
  other_services = record s { saverestore = record s.saverestore { restore = other } }

  other_tool : restore_tool other_services ≡ record (restore_tool s) {
    handler =
        restore_saverestore_snapshot
          (record s.saverestore { restore = other })
          s.reads
          s.inventory
          s.texts;
  }
  unfolding describe_restore restore_preview resolve_snapshot list_snapshots resolve_configuration
  other_tool = refl

  -- A call of restore_saverestore_snapshot that is not confirmed, from a client that asks for
  -- confirmations or from one that does not, is answered without the provider's restore: with any
  -- other restore in its place the answer and the state after it are the same.
  pub restore-Unconfirmed :
      (sha256 : Str → Str) (repr : Value → Str) (settings : Option ToolSettings)
      (tools tools' : Dict (ToolDefinition W)) (request : Request) (now : ℕ) (random : Str)
      (arguments : Dict Value) (st : State W)
      → build_registry s settings ≡ some tools
      → build_registry other_services settings ≡ some tools'
      → IsStore st.confirmations
      → Unconfirmed sha256 repr (context_of request now random) arguments st (restore_tool s)
      → handle_call_tool sha256 repr tools request now random restore_name arguments st
        ≡ handle_call_tool sha256 repr tools' request now random restore_name arguments st
  unfolding handle_call_tool needs_confirmation
  restore-Unconfirmed sha256 repr settings tools tools' request now random arguments st built built'
        store unconfirmed =
      dispatch-Unconfirmed sha256 repr (context_of request now random) tools tools' restore_name
        arguments st (restore_tool s)
        (restore_saverestore_snapshot (record s.saverestore { restore = other }) s.reads s.inventory
          s.texts)
        (restore_built s settings tools built)
        (restore_built other_services settings tools' built' ∙ ap some other_tool) (ground arith)
        store unconfirmed
