-- ===== src/Tools/Schemas/Docs.antt =====
-- argus/mcp_server/tools/docs_tools.py: the descriptions and the input schemas of its tools.
use argus_mcp_server.Dict.{Dict}
use argus_mcp_server.Prelude.{Str, str, ◌++◌, [], ◌∷◌}
use argus_mcp_server.Tools.Schemas.Build.{described, object_with, required}
use argus_mcp_server.Values.{Value}

abbrev pub search_docs_schema : Dict Value
search_docs_schema =
    object_with
      ((str "query", described (str "string") (str "Free-text search query."))
        ∷ (
          str "device",
          described (str "string") (str "Optional device name to bias the search toward."),
        )
        ∷ (str "top_k", described (str "integer") (str "Maximum number of results to return."))
        ∷ [])
      (required (str "query" ∷ []))

abbrev pub search_documentation_description : Str
search_documentation_description =
    str "Search technical documentation and manuals. When a result's source_path is "
    ++ str "a Markdown link, cite it by writing that link exactly as given."
