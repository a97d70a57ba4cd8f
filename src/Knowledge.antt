-- ===== src/Knowledge.antt =====
-- argus/services/knowledge_service.py: files, history and diffs of a repository through the cache,
-- and the search for issues over several repositories. `netloc` is the host that the URL parser
-- gives; the concurrent use of the cache is in Cache, and here is one task at a time.
pub mod Files
pub mod Tests
use argus_mcp_server.Cache.Timed.{TtlCache, Entries, cached, keep_value}
use argus_mcp_server.Dict
use argus_mcp_server.Dict.{Dict}
use argus_mcp_server.Effects.{Effect}
use argus_mcp_server.Errors.{argus, ErrorClass, Result, ok, raise, ◌>>=◌}
use argus_mcp_server.Fanout.{Awaited, ProviderResult, Status, gather_with_timeout}
use argus_mcp_server.Prelude.{
  ℕ, Str, str, ◌++◌, Bool, true, false, not, ◌&&◌, List, [], ◌∷◌, Option, none, some, if◌then◌else◌,
  ◌==◌, str_eq, leb, contains, nonempty, or_else, split, truthy,
}
use argus_mcp_server.Values.{ℤ, show_int}

pub record Issue : Type 0 where
  pub title : Str
  pub url : Str
  pub updated_at : Option ℕ
  pub created_at : Option ℕ

-- What the service calls of a Git provider; `V` is what the cache holds.
pub record GitProvider (W V : Type 0) : Type 0 where
  pub get_file : (repo path ref : Str) → Effect W V
  pub get_history : (repo path : Str) (limit : ℤ) → Effect W V
  pub get_commit_diff : (repo sha : Str) → Effect W V
  pub search_issues : (repo query state : Str) → Awaited (List Issue)

pub record KnowledgeService (W V : Type 0) : Type 0 where
  pub github : GitProvider W V
  pub gitlab : GitProvider W V
  pub gitlab_base_url : Str
  pub default_repos : List Str
  pub default_ref : Str
  pub file_cache : TtlCache W V

pub record State (W V : Type 0) : Type 0 where
  pub cache : Entries V
  pub world : W

-- `repo.split("/")[0]`
abbrev pub first_part : List Str → Str
first_part [] = []
first_part (part ∷ parts) = part

-- `_resolve_ref`
unfoldable pub resolve_ref : (default_ref : Str) → Option Str → Str
resolve_ref default_ref ref =
    if truthy ref && not (or_else ref [] == str "HEAD") then or_else ref [] else default_ref

abbrev pub default_repo : List Str → Result Str
default_repo [] = raise (
    argus ErrorClass.validation_error (
      str "repo was not given and no default repo is configured (GIT_DEFAULT_REPOS) - pass repo "
      ++ str "explicitly."))
default_repo (repo ∷ repos) = ok repo

-- `_resolve_repo`
unfoldable pub resolve_repo : (default_repos : List Str) → Option Str → Result Str
resolve_repo default_repos repo =
    if truthy repo then ok (or_else repo []) else default_repo default_repos

module _ (netloc : Str → Str) {W V : Type 0} (service : KnowledgeService W V) where
  abbrev pub host_of : Str → Str
  host_of repo = if contains repo (str "://") then netloc repo else first_part (split 47 repo)

  abbrev pub gitlab_host : Str
  gitlab_host = if nonempty service.gitlab_base_url then netloc service.gitlab_base_url else []

  -- `_provider_for`
  unfoldable pub provider_for : Str → Result (GitProvider W V)
  provider_for repo =
      if host_of repo == str "github.com"
      then ok service.github
      else (if nonempty gitlab_host && host_of repo == gitlab_host
          then ok service.gitlab
          else raise (
              argus ErrorClass.unsupported_git_host (
                str "No Git provider is configured for host '"
                ++ host_of repo
                ++ str
                    "'. Supported providers are GitHub and the host selected by GITLAB_BASE_URL; other "
                ++ str "Git services require a provider adapter.")))

  abbrev pub store : Str → Entries V → Result V × W → Result V × State W V
  store key cache (ok v, w) =
      (ok v, record { cache = keep_value service.file_cache cache key v w; world = w })
  store key cache (raise e, w) = (raise e, record { cache = cache; world = w })

  -- The factory: the provider is looked up in it, so only on a miss.
  abbrev pub fetch : (GitProvider W V → Effect W V) → Result (GitProvider W V) → Effect W V
  fetch op (raise e) w = (raise e, w)
  fetch op (ok provider) w = op provider w

  unfoldable pub get_or_set :
      Str → Str → (GitProvider W V → Effect W V) → State W V → Result V × State W V
  unfolding provider_for cached keep_value
  get_or_set key repo op s = elim (cached service.file_cache s.cache key s.world) [
    | some v ↦ (ok v, s)
    | none ↦ store key s.cache (fetch op (provider_for repo) s.world)
  ]

  abbrev pub file_key : (repo path ref : Str) → Str
  file_key repo path ref = str "file:" ++ repo ++ str ":" ++ path ++ str ":" ++ ref

  abbrev pub with_repo :
      Result Str → (Str → State W V → Result V × State W V) → State W V → Result V × State W V
  with_repo (raise e) next s = (raise e, s)
  with_repo (ok repo) next s = next repo s

  unfoldable pub get_file :
      (repo : Option Str) (path : Str) (ref : Option Str) → State W V → Result V × State W V
  unfolding get_or_set
  get_file repo path ref = with_repo (resolve_repo service.default_repos repo) (λ repo'.
      let ref' = resolve_ref service.default_ref ref in
      get_or_set (file_key repo' path ref') repo' (λ p. p.get_file repo' path ref'))

  unfoldable pub get_config_history :
      (repo : Option Str) (path : Str) (limit : ℤ) → State W V → Result V × State W V
  unfolding get_or_set
  get_config_history repo path limit = with_repo (resolve_repo service.default_repos repo) (λ repo'.
      get_or_set (str "history:" ++ repo' ++ str ":" ++ path ++ str ":" ++ show_int limit) repo'
        (λ p. p.get_history repo' path limit))

  unfoldable pub get_commit_diff :
      (repo : Option Str) (sha : Str) → State W V → Result V × State W V
  unfolding get_or_set
  get_commit_diff repo sha = with_repo (resolve_repo service.default_repos repo) (λ repo'.
      get_or_set (str "diff:" ++ repo' ++ str ":" ++ sha) repo' (λ p. p.get_commit_diff repo' sha))

  -- The tasks by repository, or the error of a repository that no provider serves.
  unfoldable pub search_tasks :
      (query state : Str)
      → Dict (Awaited (List Issue))
      → List Str
      → Result (Dict (Awaited (List Issue)))
  unfolding provider_for
  search_tasks query state tasks [] = ok tasks
  search_tasks query state tasks (repo ∷ repos) = provider_for repo >>= λ p.
      search_tasks query state (Dict.put tasks repo (p.search_issues repo query state)) repos

-- `i.updated_at or i.created_at or epoch`
abbrev pub issue_key : Issue → ℕ
issue_key i = elim i.updated_at [ some t ↦ t | none ↦ elim i.created_at [ none ↦ 0 | some t ↦ t ] ]

-- The stable sort, latest first.
unfoldable pub insert_latest : Issue → List Issue → List Issue
insert_latest i [] = i ∷ []
insert_latest i (j ∷ js) =
    let rest = insert_latest i js in
    if leb (issue_key j) (issue_key i) then i ∷ j ∷ js else j ∷ rest

unfoldable pub sort_latest : List Issue → List Issue
unfolding insert_latest
sort_latest [] = []
sort_latest (i ∷ is) = insert_latest i (sort_latest is)

-- The issues of the results whose status is "ok".
abbrev pub issues_of : ProviderResult (List Issue) → List Issue
issues_of r = elim r.status [
  | Status.ok ↦ elim r.answer [ none ↦ [] | some issues ↦ issues ]
  | _ ↦ []
]

unfoldable pub all_issues : Dict (ProviderResult (List Issue)) → List Issue
all_issues [] = []
all_issues ((repo, r) ∷ results) = issues_of r ++ all_issues results

-- `repos or self._default_repos`
abbrev pub targets : Option (List Str) → List Str → List Str
targets none default_repos = default_repos
targets (some []) default_repos = default_repos
targets (some (repo ∷ repos)) default_repos = repo ∷ repos

module _ (netloc : Str → Str) {W V : Type 0} (service : KnowledgeService W V) where
  unfoldable pub search_knowledge_base :
      (query : Str) (repos : Option (List Str)) (state limit : Str) → Result (List Issue)
  unfolding search_tasks gather_with_timeout all_issues sort_latest
  search_knowledge_base query repos state limit =
      search_tasks netloc service query state [] (targets repos service.default_repos) >>= λ tasks.
      ok (sort_latest (all_issues (gather_with_timeout tasks limit)))
