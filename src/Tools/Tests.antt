-- ===== src/Tools/Tests.antt =====
-- The tools over small services; the world is the number of calls made of them.
use argus_mcp_server.Confirmation.{empty_store}
use argus_mcp_server.Correlation.{handle_call_tool}
use argus_mcp_server.Dict
use argus_mcp_server.Dict.{Dict}
use argus_mcp_server.Effects.{Effect, fail}
use argus_mcp_server.Errors.{ok, unexpected}
use argus_mcp_server.History.{Clock, HistoryProviders}
use argus_mcp_server.Http.{Http, Call, Method, timed_out}
use argus_mcp_server.SaveRestore.Provider.{http_provider}
use argus_mcp_server.SaveRestore.Provider.ReadOnly.{Keeps}
use argus_mcp_server.Tools.Previews.{previews-Keep}
use argus_mcp_server.Tools.SaveRestore.Describe.{
  describe_restore, describe_take_snapshot, describe_create_configuration,
}
use argus_mcp_server.Prelude.{
  ℕ, suc, ◌-◌, Str, str, true, List, [], ◌∷◌, Option, none, some, ◌≡◌, refl, arith, str_beq,
}
use argus_mcp_server.Registry.{ToolDefinition, State, given_id}
use argus_mcp_server.SaveRestore.Nodes.{SaveRestoreProvider, SnrNode, Failure}
use argus_mcp_server.Tools.{Services, ToolSettings, build_registry}
use argus_mcp_server.Tools.Arguments.{arg, arg_or}
use argus_mcp_server.Tools.Device.{DeviceServices}
use argus_mcp_server.Tools.History.{update_logbook_entry_handler, given}
use argus_mcp_server.Tools.Knowledge.{KnowledgeCalls}
use argus_mcp_server.Tools.Ops.{OpsServices}
use argus_mcp_server.Tools.Pv.{PvServices, set_pv, require_pv_name}
use argus_mcp_server.Tools.Registered.{build_registry-IsComplete, IsComplete}
use argus_mcp_server.Tools.Restoring.{restore-Unconfirmed, other_services}
use argus_mcp_server.Tools.Writing.{set_pv_ok, update_ok}
use argus_mcp_server.Values.{Value, null, text, int, pos}

-- A call that answers and counts.
abbrev counted : {A : Type 0} → A → Effect ℕ A
counted a w = (ok a, suc w)

abbrev shown : Value → Str
shown (text s) = s
shown _ = str "?"

abbrev pv : PvServices ℕ
pv = record {
  get_pv = λ name.
      counted (record { value = int (pos 4); timestamp = null; severity = null; status = null });
  set_pv = λ name value. counted value;
  get_pv_info = λ name. counted [];
}

abbrev ops : OpsServices ℕ
ops = record {
  search_pvs = λ query limit. counted [];
  list_iocs = λ namespace. counted [];
  restart_ioc = λ pod_name namespace. counted true;
  execute_procedure = λ name params. counted null;
  machine_summary = λ namespace. counted [];
}

abbrev device : DeviceServices ℕ
device = record {
  resolve_device = λ name. counted [];
  search_devices = λ name. counted [];
  device_status = λ name. fail (unexpected (str "down"));
  diagnose_device = λ name. counted [];
}

abbrev history : HistoryProviders ℕ ℕ
history = record {
  get_data = λ name start end_. counted [];
  search_entries = λ content tags since. counted [];
  search_logs = λ query index since limit. counted [];
  search_pods = λ namespace pod container query since limit. counted [];
  create_entry = λ title content logbooks tags. counted [];
  get_entry = λ entry_id. counted [];
  update_entry = λ entry_id title content logbooks tags. counted ((str "title", title) ∷ []);
}

abbrev clock : Clock ℕ
clock = record { now = 1000; hours_before = λ hours t. t - hours }

abbrev knowledge : KnowledgeCalls ℕ
knowledge = record {
  search_knowledge_base = λ query repos state. counted [];
  get_file = λ repo path ref. counted [];
  get_config_history = λ repo path limit. counted [];
  get_commit_diff = λ repo sha. counted [];
}

abbrev snapshot : SnrNode
snapshot = record {
  unique_id = str "s1";
  name = str "Morning";
  node_type = str "SNAPSHOT";
  description = none;
  created = none;
  last_modified = none;
  user_name = none;
}

abbrev saverestore : SaveRestoreProvider ℕ
saverestore = record {
  get_node = λ id. counted snapshot;
  get_children = λ id. counted [];
  resolve_folder = λ folder. counted (str "f1", str "/BTF");
  create_configuration = λ folder name pvs description. counted snapshot;
  take_snapshot = λ id name comment. counted (snapshot, []);
  compare = λ id. counted [];
  restore = λ id. counted [];
}

abbrev services : Services ℕ ℕ
services = record {
  pv = pv;
  ops = ops;
  device = device;
  history = history;
  clock = clock;
  fromisoformat = λ s. none;
  minutes_before = λ v. ok 0;
  search_documents = λ query top_k. counted [];
  knowledge_hub = none;
  knowledge = knowledge;
  list_inventory = λ repo path ref devgroup devfunc zone workspace.
      counted (record { source = str "yaml"; devices = []; notes = [] });
  saverestore = saverestore;
  reads = record {
    search = λ query. counted [];
    get_snapshot = λ id. counted null;
    get_configuration = λ id. counted null;
  };
  inventory = none;
  texts = record {
    repr = shown;
    quoted = λ s. s;
    shown = shown;
    iso = λ t. str "t";
    minute = λ t. str "t";
    now = str "now";
  };
}

abbrev with_hub : Option ToolSettings
with_hub = some (record {
  inventory_backend = str "knowledge_hub";
  hub_url = some (str "https://hub");
  hub_token = some (str "token");
})

abbrev built :
    (tools : Dict (ToolDefinition ℕ)) × (build_registry services with_hub ≡ some tools)
    × Dict.IsDict tools
    × IsComplete true tools
unfolding str_beq
built = build_registry-IsComplete services with_hub refl

build_registry-IsComplete_example :
    (tools : Dict (ToolDefinition ℕ)) × (build_registry services with_hub ≡ some tools)
    × Dict.IsDict tools
    × IsComplete true tools
unfolding str_beq
build_registry-IsComplete_example = build_registry-IsComplete services with_hub refl

abbrev broken_restore : Str → Effect ℕ (List Failure)
broken_restore id = fail (unexpected (str "restored"))

abbrev arguments : Dict Value
arguments = (str "snapshot", text (str "0000-0000-0000-0000-0000000000000000000")) ∷ []

abbrev start : State ℕ
start = record { confirmations = empty_store; world = 0 }

abbrev broken : Services ℕ ℕ
broken = other_services services broken_restore

abbrev broken_built :
    (tools : Dict (ToolDefinition ℕ)) × (build_registry broken with_hub ≡ some tools)
    × Dict.IsDict tools
    × IsComplete true tools
unfolding str_beq
broken_built = build_registry-IsComplete broken with_hub refl

restore-Unconfirmed_example :
    handle_call_tool
      (λ s. s)
      shown
      built.0
      none
      100
      (str "abc")
      (str "restore_saverestore_snapshot")
      arguments
      start
    ≡ handle_call_tool
        (λ s. s)
        shown
        broken_built.0
        none
        100
        (str "abc")
        (str "restore_saverestore_snapshot")
        arguments
        start
unfolding given_id Dict.get str_beq
restore-Unconfirmed_example =
    restore-Unconfirmed services broken_restore (λ s. s) shown with_hub built.0 broken_built.0 none
      100 (str "abc") arguments start built.1 broken_built.1 tt (λ id e. absurd (ground arith))

abbrev write_arguments : Dict Value
write_arguments = (str "pv_name", text (str "Q1:SP")) ∷ (str "value", int (pos 3)) ∷ []

set_pv_ok_example :
    (pv_name : Str) × (value new_value : Value) × (arg write_arguments (str "pv_name")
      ≡ text pv_name)
    × (Dict.get write_arguments (str "value") ≡ some value)
    × (pv.set_pv pv_name value 0 ≡ (ok new_value, 1))
unfolding set_pv require_pv_name arg_or Dict.get str_beq
set_pv_ok_example = set_pv_ok pv shown write_arguments _ 0 1 refl

abbrev change : Dict Value
change = (str "entry_id", int (pos 12)) ∷ (str "title", text (str "Beam")) ∷ []

update_ok_example :
    history.update_entry (int (pos 12)) (text (str "Beam")) null null null 0
    ≡ (ok ((str "title", text (str "Beam")) ∷ []), 1)
unfolding update_logbook_entry_handler given arg_or Dict.get str_beq
update_ok_example = update_ok clock history (λ s. none) shown change _ 0 1 refl

-- A client whose GET requests answer and whose other requests count.
abbrev client : Http ℕ
client call w = (timed_out, (elim call.method [ Method.get ↦ w | _ ↦ suc w ]))

abbrev AtZero : ℕ → Type 0
AtZero w = w ≡ 0

gets : (call : Call) (w : ℕ) → call.method ≡ Method.get → AtZero w → AtZero (client call w).1
gets call w e i = ground (arith, e, i)

previews-Keep_example :
    Keeps AtZero (
      describe_create_configuration
        (http_provider client true (λ v. []) (λ n. n) (λ s. s))
        none
        services.texts
        arguments)
    × Keeps AtZero (
        describe_take_snapshot
          (http_provider client true (λ v. []) (λ n. n) (λ s. s))
          services.texts
          arguments)
    × Keeps AtZero (
        describe_restore
          (http_provider client true (λ v. []) (λ n. n) (λ s. s))
          services.texts
          arguments)
previews-Keep_example =
    previews-Keep AtZero client true (λ v. []) (λ n. n) (λ s. s) services.texts none arguments gets
      tt
