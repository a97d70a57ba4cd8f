-- ===== src/Lib.antt =====
-- ARGUS is an MCP server for accelerator operations: agents call its tools, a registry dispatches
-- each call to a handler, handlers call services, and services combine providers, one for each
-- outside system (EPICS, Kubernetes, logbook, save-and-restore, ...).
--
-- The files and the code that each is about:
-- Errors, Errors/Classes: the exception classes of argus/core/errors.py and of every
--   argus/providers/*/exceptions.py, with their codes; `Role` and `Family` are the base classes
--   that `except` clauses name. `Result` is what a call gives or raises.
-- Values, Values/Canonical: JSON values, and the text of json.dumps with sorted keys that
--   argus/mcp_server/confirmation.py hashes. Below Canonical: Lexer reads JSON text without knowing the
--   writer, Literals what it reads of a written text, Cut and Brackets where a value ends in a text,
--   Members and Dumps what a text determines. Dict is a Python dictionary with text keys.
-- Confirmation: argus/mcp_server/confirmation.py, the store of pending confirmations. Redeem says
--   what one redemption answers, History what a sequence of calls answers, and Book is the abstract
--   book, which forgets nothing by itself, that the store is compared with; Binding compares calls by
--   what is hashed of them.
-- Registry: argus/mcp_server/tools/registry.py. `dispatch` is split as the code nests: attempt
--   (the try body), confirmation_gate, ask, confirmed, after_gate, run_handler, error_of (the except
--   clauses), success_response and error_response. It uses the store of Confirmation. Gate, TwoStep and
--   Swapped say when a handler runs.
-- Tools: argus/mcp_server/tools, a file for each tool module with its handlers, previews and tools,
--   and build_registry of argus/mcp_server/server.py, which registers them. Tools/Arguments is what
--   they all do with their arguments, Tools/Schemas the input schemas and descriptions. Ops, Pv,
--   Device, Beamline, Docs (with hub_tools.py), History, Logs and Knowledge take the services they
--   call as records; SaveRestore runs over the modelled service. Registered, Writing, Restoring and
--   Previews hold the theorems.
-- Cache: argus/core/cache.py. get_or_set is a machine of phases (before the lock, waiting for it,
--   awaiting the factory), stepped by `advance`; `step` interleaves tasks, and an entry may be
--   dropped at any step, since cachetools decides when. Timed is what a service sees of a cache: entries
--   that expire by a clock that the world carries.
-- Effects: calls in sequence, each with a result and the next world. Http: a request of the HTTP
--   client library and the ways it can end, for the providers below. Sorting: Python's stable sort by a
--   key, the greatest first.
-- Fanout: argus/core/models.py, gather_with_timeout and the result of one provider call.
-- Diagnostics: argus/services/diagnostics_service.py over Fanout.
-- Operations: argus/services/operations_service.py, transports with their fallback, the IOC list
--   and its cache, the machine summary and procedures.
-- Inventory: argus/services/device_types and argus/services/beamline_inventory_service.py.
-- SaveRestore: argus/services/saverestore_service.py over the provider as a parameter: Plan for
--   plan_configuration, Nodes for finding configurations and snapshots, and the operations that
--   create, take and restore in SaveRestore itself. SaveRestore/Provider is that provider,
--   argus/providers/saverestore/saverestore.py: Requests, Folders and Records under it, with Decode
--   for what it makes of the service's JSON; `http_provider` fills the record that the service takes.
-- Devices: argus/services/device_service.py, devices assembled from ChannelFinder channels.
-- History: argus/services/history_service.py. Documentation:
--   argus/services/documentation_service.py.
-- Logbook: argus/providers/logbook/logbook.py, the client of Olog. EntryId is which ids it accepts,
--   Digits what a digit is in it, Record the entry and the changes of an update, Requests how requests end. Logbook/Hub is
--   argus/providers/logbook/knowledge_hub.py, the entries that the Knowledge Hub keeps, with the header
--   of an entry in Logbook/Hub/Header.
-- Loki: argus/providers/loki/loki.py, the query of a search and its answer. Loki/Reader reads such
--   queries.
-- Health: argus/providers/base.py and the health checks, which the providers share.
-- Correlation: argus/mcp_server/correlation.py and the handlers of argus/mcp_server/server.py, which
--   call Registry with the context that the headers give.
-- Knowledge: argus/services/knowledge_service.py, repositories, references and their cached files.
-- KnowledgeHub: argus/providers/knowledge_hub/client.py, the session and the fan-out over workspaces,
--   with what other calls do to the shared client as a part of the given HTTP client;
--   Wire is the message in a response, Calls the tool calls and the health check, Streams the event
--   streams that a server sends. KnowledgeHub/Inventory is
--   argus/services/knowledge_hub_inventory_service.py over it.
--
-- Every definition is total: the loops are over lists, so there is no fuel, with these exceptions.
-- The pages of the hub are counted down from the code's own bound of 50 pages of 100 records, which
-- is enough for a workspace of up to 5000 devices; its two attempts are written out. The
-- fields of a logbook header are found with a unit of fuel for each character, and each step goes on
-- by at least one; the text of a number n has n + 1 units, one for each digit. Text is a
-- list of code points; `lower` changes ASCII and Latin-1 letters only. Parameters stand for what is not
-- in the repository: sha256, repr and the text of a time, the world `W` that handlers, providers and the
-- HTTP client change, the factory of a cache, local time. The clock and the random part of an id are arguments. A
-- provider is a record of functions to a result and the next world.
--
-- Not modelled: logging and request ids, the layout of JSON text in responses, YAML parsing, the
-- transports, the settings read from the environment and AppContext.build, which reads them; the
-- clients of Git, of documentation indexes, of the archiver, of Elasticsearch, of ChannelFinder, of EPICS
-- and of Kubernetes, which decode what a client library or an HTTP service answers.
pub mod Prelude
pub mod Dict
pub mod Errors
pub mod Effects
pub mod Values
pub mod Http
pub mod Sorting
pub mod Confirmation
pub mod Registry
pub mod Cache
pub mod Fanout
pub mod Diagnostics
pub mod Operations
pub mod Inventory
pub mod SaveRestore
pub mod Devices
pub mod Correlation
pub mod Knowledge
pub mod KnowledgeHub
pub mod History
pub mod Documentation
pub mod Logbook
pub mod Loki
pub mod Tools
pub mod Health
