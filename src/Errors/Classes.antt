-- ===== src/Errors/Classes.antt =====
-- argus/core/errors.py and the exceptions.py of every provider: the classes below ArgusError, with
-- the `code` that each carries and the bases that the handlers test for.
use argus_mcp_server.Prelude.{Str, str}

-- The classes, each named by its code.
pub data ErrorClass : Type 0 where
  argus_error provider_unconfigured provider_unavailable provider_timeout : ErrorClass
  validation_error epics_error epics_unconfigured epics_connection_error : ErrorClass
  epics_timeout pv_not_found pv_write_rejected archiver_error archiver_unconfigured : ErrorClass
  archiver_unavailable archiver_timeout archiver_query_error channelfinder_error : ErrorClass
  channelfinder_unconfigured channelfinder_unavailable channelfinder_timeout : ErrorClass
  channelfinder_query_error kubernetes_error kubernetes_unconfigured : ErrorClass
  kubernetes_unavailable kubernetes_resource_not_found argocd_error : ErrorClass
  argocd_unconfigured argocd_unavailable argocd_timeout argocd_auth_error : ErrorClass
  logbook_error logbook_unconfigured logbook_unavailable logbook_timeout : ErrorClass
  logbook_query_error logbook_refused elasticsearch_error : ErrorClass
  elasticsearch_unconfigured elasticsearch_unavailable elasticsearch_timeout : ErrorClass
  elasticsearch_query_error loki_error loki_unconfigured loki_unavailable : ErrorClass
  loki_timeout loki_query_error documentation_error documentation_unconfigured : ErrorClass
  documentation_unavailable documentation_timeout documentation_index_error : ErrorClass
  documentation_query_error git_error github_error github_unconfigured : ErrorClass
  github_unavailable github_timeout github_not_found gitlab_error : ErrorClass
  gitlab_unconfigured gitlab_unavailable gitlab_timeout gitlab_not_found : ErrorClass
  unsupported_git_host saverestore_error saverestore_unconfigured : ErrorClass
  saverestore_unavailable saverestore_timeout saverestore_query_error : ErrorClass
  saverestore_refused knowledge_hub_error knowledge_hub_unconfigured : ErrorClass
  knowledge_hub_unavailable knowledge_hub_timeout knowledge_hub_auth_error : ErrorClass
  knowledge_hub_query_error beamline_inventory_error : ErrorClass

-- The provider package that a class belongs to; `core` is core/errors.py and the services.
pub data Family : Type 0 where
  core epics archiver channelfinder kubernetes argocd logbook elastic loki : Family
  documentation git saverestore knowledge_hub : Family

-- The base of core/errors.py that a class has beside its package's own.
pub data Role : Type 0 where
  plain unconfigured unavailable timeout : Role

-- The class attribute `code`.
unfoldable pub code : ErrorClass → Str
code argus_error = str "argus_error"
code provider_unconfigured = str "provider_unconfigured"
code provider_unavailable = str "provider_unavailable"
code provider_timeout = str "provider_timeout"
code validation_error = str "validation_error"
code epics_error = str "epics_error"
code epics_unconfigured = str "epics_unconfigured"
code epics_connection_error = str "epics_connection_error"
code epics_timeout = str "epics_timeout"
code pv_not_found = str "pv_not_found"
code pv_write_rejected = str "pv_write_rejected"
code archiver_error = str "archiver_error"
code archiver_unconfigured = str "archiver_unconfigured"
code archiver_unavailable = str "archiver_unavailable"
code archiver_timeout = str "archiver_timeout"
code archiver_query_error = str "archiver_query_error"
code channelfinder_error = str "channelfinder_error"
code channelfinder_unconfigured = str "channelfinder_unconfigured"
code channelfinder_unavailable = str "channelfinder_unavailable"
code channelfinder_timeout = str "channelfinder_timeout"
code channelfinder_query_error = str "channelfinder_query_error"
code kubernetes_error = str "kubernetes_error"
code kubernetes_unconfigured = str "kubernetes_unconfigured"
code kubernetes_unavailable = str "kubernetes_unavailable"
code kubernetes_resource_not_found = str "kubernetes_resource_not_found"
code argocd_error = str "argocd_error"
code argocd_unconfigured = str "argocd_unconfigured"
code argocd_unavailable = str "argocd_unavailable"
code argocd_timeout = str "argocd_timeout"
code argocd_auth_error = str "argocd_auth_error"
code logbook_error = str "logbook_error"
code logbook_unconfigured = str "logbook_unconfigured"
code logbook_unavailable = str "logbook_unavailable"
code logbook_timeout = str "logbook_timeout"
code logbook_query_error = str "logbook_query_error"
code logbook_refused = str "logbook_refused"
code elasticsearch_error = str "elasticsearch_error"
code elasticsearch_unconfigured = str "elasticsearch_unconfigured"
code elasticsearch_unavailable = str "elasticsearch_unavailable"
code elasticsearch_timeout = str "elasticsearch_timeout"
code elasticsearch_query_error = str "elasticsearch_query_error"
code loki_error = str "loki_error"
code loki_unconfigured = str "loki_unconfigured"
code loki_unavailable = str "loki_unavailable"
code loki_timeout = str "loki_timeout"
code loki_query_error = str "loki_query_error"
code documentation_error = str "documentation_error"
code documentation_unconfigured = str "documentation_unconfigured"
code documentation_unavailable = str "documentation_unavailable"
code documentation_timeout = str "documentation_timeout"
code documentation_index_error = str "documentation_index_error"
code documentation_query_error = str "documentation_query_error"
code git_error = str "git_error"
code github_error = str "github_error"
code github_unconfigured = str "github_unconfigured"
code github_unavailable = str "github_unavailable"
code github_timeout = str "github_timeout"
code github_not_found = str "github_not_found"
code gitlab_error = str "gitlab_error"
code gitlab_unconfigured = str "gitlab_unconfigured"
code gitlab_unavailable = str "gitlab_unavailable"
code gitlab_timeout = str "gitlab_timeout"
code gitlab_not_found = str "gitlab_not_found"
code unsupported_git_host = str "unsupported_git_host"
code saverestore_error = str "saverestore_error"
code saverestore_unconfigured = str "saverestore_unconfigured"
code saverestore_unavailable = str "saverestore_unavailable"
code saverestore_timeout = str "saverestore_timeout"
code saverestore_query_error = str "saverestore_query_error"
code saverestore_refused = str "saverestore_refused"
code knowledge_hub_error = str "knowledge_hub_error"
code knowledge_hub_unconfigured = str "knowledge_hub_unconfigured"
code knowledge_hub_unavailable = str "knowledge_hub_unavailable"
code knowledge_hub_timeout = str "knowledge_hub_timeout"
code knowledge_hub_auth_error = str "knowledge_hub_auth_error"
code knowledge_hub_query_error = str "knowledge_hub_query_error"
code beamline_inventory_error = str "beamline_inventory_error"

unfoldable pub family : ErrorClass → Family
family epics_error = epics
family epics_unconfigured = epics
family epics_connection_error = epics
family epics_timeout = epics
family pv_not_found = epics
family pv_write_rejected = epics
family archiver_error = archiver
family archiver_unconfigured = archiver
family archiver_unavailable = archiver
family archiver_timeout = archiver
family archiver_query_error = archiver
family channelfinder_error = channelfinder
family channelfinder_unconfigured = channelfinder
family channelfinder_unavailable = channelfinder
family channelfinder_timeout = channelfinder
family channelfinder_query_error = channelfinder
family kubernetes_error = kubernetes
family kubernetes_unconfigured = kubernetes
family kubernetes_unavailable = kubernetes
family kubernetes_resource_not_found = kubernetes
family argocd_error = argocd
family argocd_unconfigured = argocd
family argocd_unavailable = argocd
family argocd_timeout = argocd
family argocd_auth_error = argocd
family logbook_error = logbook
family logbook_unconfigured = logbook
family logbook_unavailable = logbook
family logbook_timeout = logbook
family logbook_query_error = logbook
family logbook_refused = logbook
family elasticsearch_error = elastic
family elasticsearch_unconfigured = elastic
family elasticsearch_unavailable = elastic
family elasticsearch_timeout = elastic
family elasticsearch_query_error = elastic
family loki_error = loki
family loki_unconfigured = loki
family loki_unavailable = loki
family loki_timeout = loki
family loki_query_error = loki
family documentation_error = documentation
family documentation_unconfigured = documentation
family documentation_unavailable = documentation
family documentation_timeout = documentation
family documentation_index_error = documentation
family documentation_query_error = documentation
family git_error = git
family github_error = git
family github_unconfigured = git
family github_unavailable = git
family github_timeout = git
family github_not_found = git
family gitlab_error = git
family gitlab_unconfigured = git
family gitlab_unavailable = git
family gitlab_timeout = git
family gitlab_not_found = git
family unsupported_git_host = git
family saverestore_error = saverestore
family saverestore_unconfigured = saverestore
family saverestore_unavailable = saverestore
family saverestore_timeout = saverestore
family saverestore_query_error = saverestore
family saverestore_refused = saverestore
family knowledge_hub_error = knowledge_hub
family knowledge_hub_unconfigured = knowledge_hub
family knowledge_hub_unavailable = knowledge_hub
family knowledge_hub_timeout = knowledge_hub
family knowledge_hub_auth_error = knowledge_hub
family knowledge_hub_query_error = knowledge_hub
family _ = core

unfoldable pub role : ErrorClass → Role
role provider_unconfigured = unconfigured
role provider_unavailable = unavailable
role provider_timeout = timeout
role epics_unconfigured = unconfigured
role epics_connection_error = unavailable
role epics_timeout = timeout
role archiver_unconfigured = unconfigured
role archiver_unavailable = unavailable
role archiver_timeout = timeout
role channelfinder_unconfigured = unconfigured
role channelfinder_unavailable = unavailable
role channelfinder_timeout = timeout
role kubernetes_unconfigured = unconfigured
role kubernetes_unavailable = unavailable
role argocd_unconfigured = unconfigured
role argocd_unavailable = unavailable
role argocd_timeout = timeout
role logbook_unconfigured = unconfigured
role logbook_unavailable = unavailable
role logbook_timeout = timeout
role elasticsearch_unconfigured = unconfigured
role elasticsearch_unavailable = unavailable
role elasticsearch_timeout = timeout
role loki_unconfigured = unconfigured
role loki_unavailable = unavailable
role loki_timeout = timeout
role documentation_unconfigured = unconfigured
role documentation_unavailable = unavailable
role documentation_timeout = timeout
role github_unconfigured = unconfigured
role github_unavailable = unavailable
role github_timeout = timeout
role gitlab_unconfigured = unconfigured
role gitlab_unavailable = unavailable
role gitlab_timeout = timeout
role saverestore_unconfigured = unconfigured
role saverestore_unavailable = unavailable
role saverestore_timeout = timeout
role knowledge_hub_unconfigured = unconfigured
role knowledge_hub_unavailable = unavailable
role knowledge_hub_timeout = timeout
role _ = plain
