-- ===== src/Tools/Knowledge.antt =====
-- argus/mcp_server/tools/knowledge_tools.py: issues, and the history of configuration files.
use argus_mcp_server.Dict.{Dict}
use argus_mcp_server.Effects.{Effect, pure, ◌>>=◌}
use argus_mcp_server.Prelude.{Str, str, List, [], ◌∷◌, Option, none, some, if◌then◌else◌}
use argus_mcp_server.Registry.{ToolDefinition}
use argus_mcp_server.Tools.Arguments.{arg, arg_or, require_text, invalid, as_list, reading}
use argus_mcp_server.Tools.Schemas.Knowledge.{
  search_kb_schema, config_history_schema, search_knowledge_base_description,
  get_config_history_description,
}
use argus_mcp_server.Values.{Value, null, int, pos, text, truth}

-- The calls of KnowledgeService; a dataclass is the list of its fields.
pub record KnowledgeCalls (W : Type 0) : Type 0 where
  pub search_knowledge_base : Str → (repos state : Value) → Effect W (List (Dict Value))
  pub get_file : (repo : Option Str) (path : Str) (ref : Value) → Effect W (Dict Value)
  pub get_config_history :
      (repo : Option Str) (path : Str) (limit : Value) → Effect W (List (Dict Value))
  pub get_commit_diff : (repo : Option Str) (sha : Value) → Effect W (List (Dict Value))

abbrev default_config_path : Str
default_config_path = str "deploy/values.yaml"

module _ {W : Type 0} where
  -- `if value is not None and not isinstance(value, str): raise ValidationError(message)`
  abbrev pub optional_text : (message : Str) → Value → Effect W (Option Str)
  optional_text message null = pure none
  optional_text message (text s) = pure (some s)
  optional_text message _ = invalid message

  -- `if not isinstance(value, str): raise ValidationError(message)`
  abbrev a_text : (message : Str) → Value → Effect W Str
  a_text message (text s) = pure s
  a_text message _ = invalid message

-- `value or default`
abbrev or_value : Value → Value → Value
or_value value default = if truth value then value else default

module _ {W : Type 0} (knowledge_service : KnowledgeCalls W) where
  unfoldable pub search_knowledge_base : Dict Value → Effect W (Dict Value)
  unfolding arg_or
  search_knowledge_base arguments =
      require_text (str "query cannot be empty and must be a string.") (arg arguments (str "query"))
      >>= λ query.
          knowledge_service.search_knowledge_base query (arg arguments (str "repos"))
            (arg_or (text (str "all")) arguments (str "state"))
          >>= λ issues. pure ((str "issues", as_list issues) ∷ [])

  -- What is asked of a repository: a commit's changes, a file at a reference, or the history.
  abbrev look_up : Dict Value → (repo : Option Str) (path : Str) → Effect W (Dict Value)
  look_up arguments repo path =
      if truth (arg arguments (str "commit_sha"))
      then (knowledge_service.get_commit_diff repo (arg arguments (str "commit_sha")) >>= λ diff.
          pure (
            (str "commit_sha", arg arguments (str "commit_sha")) ∷ (str "diff", as_list diff) ∷ []))
      else (if truth (arg arguments (str "ref"))
          then knowledge_service.get_file repo path (arg arguments (str "ref"))
          else (knowledge_service.get_config_history repo path
                (arg_or (int (pos 20)) arguments (str "limit"))
              >>= λ history. pure ((str "history", as_list history) ∷ [])))

  unfoldable pub get_config_history : Dict Value → Effect W (Dict Value)
  unfolding arg_or
  get_config_history arguments =
      optional_text (str "repo must be a string.") (arg arguments (str "repo")) >>= λ repo.
      a_text (str "path must be a string.")
        (or_value (arg arguments (str "path")) (text default_config_path))
      >>= look_up arguments repo

  unfoldable pub tools : List (ToolDefinition W)
  unfolding search_knowledge_base get_config_history
  tools =
      reading (str "search_knowledge_base") search_knowledge_base_description search_kb_schema
        search_knowledge_base
      ∷ reading (str "get_config_history") get_config_history_description config_history_schema
          get_config_history
      ∷ []
