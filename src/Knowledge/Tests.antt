-- ===== src/Knowledge/Tests.antt =====
-- A file of the default repository, read from GitHub and then again by name.
use argus_mcp_server.Dict
use argus_mcp_server.Errors.{ok}
use argus_mcp_server.Prelude.{
  ℕ, suc, Str, str, ◌++◌, [], ◌∷◌, some, none, ◌≡◌, refl, str_beq, contains, starts_with, split,
  arith,
}
use argus_mcp_server.Knowledge.{
  GitProvider, KnowledgeService, State, get_file, file_key, resolve_repo, resolve_ref, provider_for,
}
use argus_mcp_server.Knowledge.Files.{get_file_twice}

abbrev github : GitProvider ℕ Str
github = record {
  get_file = λ repo path ref w. (ok (path ++ str "@" ++ ref), suc w);
  get_history = λ repo path limit w. (ok [], suc w);
  get_commit_diff = λ repo sha w. (ok [], suc w);
  search_issues = λ repo query state. (ok [], 1);
}

abbrev service : KnowledgeService ℕ Str
service = record {
  github = github;
  gitlab = github;
  gitlab_base_url = [];
  default_repos = str "github.com/btf" ∷ [];
  default_ref = str "prod";
  file_cache = record { clock = λ w. w; ttl = 600; evict = λ entries. entries };
}

abbrev no_netloc : Str → Str
no_netloc url = []

abbrev cold : State ℕ Str
cold = record { cache = []; world = 0 }

abbrev warm : State ℕ Str
warm = record {
  cache =
      (
        file_key no_netloc service (str "github.com/btf") (str "values.yaml") (str "prod"),
        (str "values.yaml@prod", 601),
      )
      ∷ [];
  world = 1;
}

abbrev later : State ℕ Str
later = record warm { world = 600 }

get_file_twice_example :
    get_file no_netloc service
      (some (str "github.com/btf"))
      (str "values.yaml")
      (some (str "prod"))
      later
    ≡ (ok (str "values.yaml@prod"), later)
unfolding get_file resolve_repo resolve_ref provider_for contains starts_with split str_beq Dict.get
    Dict.put
get_file_twice_example =
    get_file_twice no_netloc service none (some (str "github.com/btf")) (str "values.yaml")
      (str "github.com/btf") (some (str "HEAD")) (some (str "prod")) (str "values.yaml@prod")
      (str "values.yaml@prod") cold warm later 601 refl refl refl refl refl refl (omega arith)
