-- ===== src/Tools/Registered.antt =====
-- What build_registry of argus/mcp_server/server.py registers.
use mathlib.Core.Path.{subst}
use argus_mcp_server.Dict
use argus_mcp_server.Dict.{Dict}
use argus_mcp_server.Prelude.{
  Str, str, Bool, true, false, List, [], ◌∷◌, Option, none, some, map, keep, length, ◌≡◌, refl,
  arith, ◌==◌, str_eq, ◌||◌, Bool-cases, inl, inr, if◌then◌else◌, str_beq,
}
use argus_mcp_server.Registry.{ToolDefinition, register_many}
use argus_mcp_server.Registry.Register.{register_many-IsDict}
use argus_mcp_server.Tools.{
  Services, ToolSettings, source_of, has_hub, tool_lists, register_lists, build_registry,
}
use argus_mcp_server.Tools.Arguments.{reading}
use argus_mcp_server.Tools.Beamline
use argus_mcp_server.Tools.Beamline.{list_beamline_devices}
use argus_mcp_server.Tools.Schemas.Beamline.{
  list_devices_schema, hub_list_devices_schema, yaml_description, hub_description,
}
use argus_mcp_server.Values.{Value}

abbrev pub writing_names : List Str
writing_names =
    str "set_pv"
    ∷ str "set_pv_value"
    ∷ str "create_logbook_entry"
    ∷ str "update_logbook_entry"
    ∷ str "restart_ioc"
    ∷ str "execute_procedure"
    ∷ str "create_saverestore_configuration"
    ∷ str "take_saverestore_snapshot"
    ∷ str "restore_saverestore_snapshot"
    ∷ []

module _ {W : Type 0} where
  abbrev pub named : (ToolDefinition W → Bool) → Dict (ToolDefinition W) → List Str
  named test tools = map (λ (t : ToolDefinition W). t.name) (keep test (Dict.values tools))

  -- Thirty tools, and one more with the hub, under distinct names; nine are marked as writing, and one
  -- of these is confirmed for every client.
  abbrev pub IsComplete : Bool → Dict (ToolDefinition W) → Type 0
  IsComplete hub tools =
      (length tools ≡ (if hub then 31 else 30))
      × (named (λ (t : ToolDefinition W). t.writes) tools ≡ writing_names)
      × (named (λ (t : ToolDefinition W). t.always_confirm) tools
          ≡ str "restore_saverestore_snapshot" ∷ [])

module _ {W Time : Type 0} (s : Services W Time) where
  register_lists-IsDict :
      (lists : List (List (ToolDefinition W))) (start : Option (Dict (ToolDefinition W)))
      (tools : Dict (ToolDefinition W))
      → ((first : Dict (ToolDefinition W)) → start ≡ some first → Dict.IsDict first)
      → register_lists s start lists ≡ some tools
      → Dict.IsDict tools
  unfolding register_lists
  register_lists-IsDict lists none tools h e = absurd (ground arith)
  register_lists-IsDict [] (some first) tools h e = h tools e
  register_lists-IsDict (given ∷ lists) (some first) tools h e =
      register_lists-IsDict lists (register_many first given) tools
        (λ more e'. (register_many-IsDict first given more (h first refl) e').0) e

  distinct :
      (lists : List (List (ToolDefinition W))) (tools : Dict (ToolDefinition W))
      → register_lists s (some []) lists ≡ some tools
      → Dict.IsDict tools
  distinct lists tools e =
      register_lists-IsDict lists (some []) tools
        (λ first e'.
          subst (λ (d : Dict (ToolDefinition W)). Dict.IsDict d) {x = []} {y = first}
            (ground (arith, e')) tt)
        e

  abbrev pub lists_of : (description : Str) → Dict Value → Bool → List (List (ToolDefinition W))
  lists_of description schema hub =
      (reading (str "list_beamline_devices") description schema
          (list_beamline_devices s.list_inventory)
        ∷ [])
      ∷ tool_lists s hub

  registered :
      (description : Str) (schema : Dict Value) (hub : Bool)
      → (tools : Dict (ToolDefinition W)) × (register_lists s
            (some [])
            (lists_of description schema hub)
          ≡ some tools)
        × IsComplete hub tools
  unfolding register_lists tool_lists Dict.put Dict.get str_beq
  registered description schema true = (_, refl, (refl, refl, refl))
  registered description schema false = (_, refl, (refl, refl, refl))

  -- With either inventory source the registration succeeds, with or without the hub's tool: thirty
  -- tools, one more where the hub has a URL and a token, under distinct names; exactly the nine named
  -- in `writing_names` are marked as writing, and of them exactly restore_saverestore_snapshot is
  -- confirmed for every client.
  pub build_registry-IsComplete :
      (settings : Option ToolSettings)
      → (source_of settings == str "knowledge_hub" || source_of settings == str "yaml") ≡ true
      → (tools : Dict (ToolDefinition W)) × (build_registry s settings ≡ some tools)
        × Dict.IsDict tools
        × IsComplete (has_hub settings) tools
  unfolding build_registry Beamline.tools
  build_registry-IsComplete settings known =
      elim (Bool-cases (source_of settings == str "knowledge_hub")) [
        | inl hub ↦
            let (tools, e, complete) =
              registered hub_description hub_list_devices_schema (has_hub settings) in
            (
              tools,
              ground (arith, e, hub),
              distinct (lists_of hub_description hub_list_devices_schema (has_hub settings)) tools
                  e,
              complete,
            )
        | inr no_hub ↦
            let (tools, e, complete) =
              registered yaml_description list_devices_schema (has_hub settings) in
            (
              tools,
              ground (arith, e, no_hub, known),
              distinct (lists_of yaml_description list_devices_schema (has_hub settings)) tools e,
              complete,
            )
      ]

  -- Any other source makes the registration fail.
  build_registry-unknown :
      (settings : Option ToolSettings)
      → (source_of settings == str "knowledge_hub") ≡ false
      → (source_of settings == str "yaml") ≡ false
      → build_registry s settings ≡ none
  unfolding build_registry Beamline.tools
  build_registry-unknown settings no_hub no_yaml = ground (arith, no_hub, no_yaml)
