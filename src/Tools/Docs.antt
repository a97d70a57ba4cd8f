-- ===== src/Tools/Docs.antt =====
-- argus/mcp_server/tools/docs_tools.py and hub_tools.py: the documentation search and the Knowledge
-- Hub's workspaces.
use argus_mcp_server.Dict.{Dict}
use argus_mcp_server.Documentation.{search_documentation}
use argus_mcp_server.Effects.{Effect, pure, fail, ◌>>=◌}
use argus_mcp_server.Errors.{argus, ErrorClass}
use argus_mcp_server.Prelude.{Str, str, Bool, List, [], ◌∷◌, Option, none, some, if◌then◌else◌}
use argus_mcp_server.Registry.{ToolDefinition}
use argus_mcp_server.Tools.Arguments.{arg, arg_or, require_text, as_list, text_list, reading}
use argus_mcp_server.Tools.Schemas.Docs.{search_docs_schema, search_documentation_description}
use argus_mcp_server.Tools.Schemas.Hub.{
  list_knowledge_hub_workspaces_description, list_knowledge_hub_workspaces_schema,
}
use argus_mcp_server.Values.{Value, null, int, pos}

module _ {W : Type 0} (search : Str → (top_k : Value) → Effect W (List (Dict Value)))
    (repr : Value → Str) where
  unfoldable pub search_documentation_handler : Dict Value → Effect W (Dict Value)
  unfolding arg_or search_documentation
  search_documentation_handler arguments =
      require_text (str "query cannot be empty and must be a string.") (arg arguments (str "query"))
      >>= λ query.
          search_documentation search repr query (arg arguments (str "device"))
            (arg_or (int (pos 5)) arguments (str "top_k"))
          >>= λ results. pure ((str "results", as_list results) ∷ [])

  unfoldable pub tools : List (ToolDefinition W)
  unfolding search_documentation_handler
  tools =
      reading (str "search_documentation") search_documentation_description search_docs_schema
        search_documentation_handler
      ∷ []

-- `ctx.knowledge_hub`, as far as the tool reads it.
pub record Hub (W : Type 0) : Type 0 where
  pub is_configured : Bool
  pub list_workspaces : Effect W (List (Dict Value))
  pub configured_workspaces : List Str

-- `workspaces or None`
abbrev restricted_to : List Str → Value
restricted_to [] = null
restricted_to (w ∷ ws) = text_list (w ∷ ws)

module _ {W : Type 0} (knowledge_hub : Option (Hub W)) where
  abbrev not_configured : Effect W (Dict Value)
  not_configured = fail (
      argus ErrorClass.provider_unconfigured (
        str
          "The ARGUS Knowledge Hub is not configured (set KNOWLEDGE_HUB_URL and KNOWLEDGE_HUB_TOKEN)."))

  abbrev list_from : Option (Hub W) → Effect W (Dict Value)
  list_from none = not_configured
  list_from (some hub) =
      if hub.is_configured
      then (hub.list_workspaces >>= λ workspaces. pure (
          (str "workspaces", as_list workspaces)
          ∷ (str "restricted_to", restricted_to hub.configured_workspaces)
          ∷ []))
      else not_configured

  unfoldable pub list_knowledge_hub_workspaces : Dict Value → Effect W (Dict Value)
  list_knowledge_hub_workspaces arguments = list_from knowledge_hub

  unfoldable pub hub_tools : List (ToolDefinition W)
  unfolding list_knowledge_hub_workspaces
  hub_tools =
      reading (str "list_knowledge_hub_workspaces") list_knowledge_hub_workspaces_description
        list_knowledge_hub_workspaces_schema list_knowledge_hub_workspaces
      ∷ []
