-- ===== src/Tools/Device.antt =====
-- argus/mcp_server/tools/device_tools.py: the handlers of the device tools.
use argus_mcp_server.Dict.{Dict}
use argus_mcp_server.Effects.{Effect, pure, ◌>>=◌}
use argus_mcp_server.Errors.{Result, ok, raise}
use argus_mcp_server.KnowledgeHub.{message_of}
use argus_mcp_server.Prelude.{Str, str, List, [], ◌∷◌, length}
use argus_mcp_server.Registry.Response
use argus_mcp_server.Registry.{ToolDefinition}
use argus_mcp_server.Tools.Arguments.{arg, arg_or, require_text, as_list, text_list, reading}
use argus_mcp_server.Tools.Schemas.Device.{
  device_name_schema, beamline_schema, get_device_description, device_status_description,
  diagnose_device_description, beamline_status_description,
}
use argus_mcp_server.Values.{Value, text, int, pos, dict}

-- A `DeviceStatusReport`: all its fields, and those that beamline_status shows.
pub record StatusReport : Type 0 where
  pub fields : Dict Value
  pub live_pvs_status : Value
  pub pod_status : Value
  pub degraded_providers : List Str

-- The calls of DeviceService and DiagnosticsService; `search_devices` answers the devices' names.
pub record DeviceServices (W : Type 0) : Type 0 where
  pub resolve_device : Str → Effect W (Dict Value)
  pub search_devices : Str → Effect W (List Str)
  pub device_status : Str → Effect W StatusReport
  pub diagnose_device : Str → Effect W (Dict Value)

-- An entry of beamline_status.
abbrev pub summary : Str → Result StatusReport → Dict Value
summary device (raise e) =
    (str "device", text device)
    ∷ (str "status", text (str "error"))
    ∷ (str "error", text (message_of e))
    ∷ []
summary device (ok report) =
    (str "device", text device)
    ∷ (str "live_pvs", report.live_pvs_status)
    ∷ (str "pod", report.pod_status)
    ∷ (str "degraded_providers", text_list report.degraded_providers)
    ∷ []

module _ {W : Type 0} (services : DeviceServices W) where
  unfoldable pub require_device_name : Dict Value → Effect W Str
  unfolding arg_or
  require_device_name arguments =
      require_text (str "device_name cannot be empty and must be a string.")
        (arg arguments (str "device_name"))

  unfoldable pub get_device : Dict Value → Effect W (Dict Value)
  unfolding require_device_name
  get_device arguments = require_device_name arguments >>= λ device_name.
      services.resolve_device device_name >>= λ device.
      pure ((str "device", dict (Response.to_fields device)) ∷ [])

  unfoldable pub device_status : Dict Value → Effect W (Dict Value)
  unfolding require_device_name
  device_status arguments = require_device_name arguments >>= λ device_name.
      services.device_status device_name >>= λ report. pure report.fields

  unfoldable pub diagnose_device : Dict Value → Effect W (Dict Value)
  unfolding require_device_name
  diagnose_device arguments = require_device_name arguments >>= services.diagnose_device

  -- The reports, gathered with `return_exceptions=True`, as entries; one report after the other.
  unfoldable pub summaries : List Str → W → List (Dict Value) × W
  summaries [] w = ([], w)
  summaries (device ∷ devices) w =
      let (report, w₁) = services.device_status device w in
      let (rest, w₂) = summaries devices w₁ in (summary device report ∷ rest, w₂)

  abbrev answered : Str → List Str → List (Dict Value) × W → Result (Dict Value) × W
  answered beamline devices (entries, w) = (
    ok (
        (str "beamline", text beamline)
        ∷ (str "device_count", int (pos (length devices)))
        ∷ (str "devices", as_list entries)
        ∷ []),
    w,
  )

  unfoldable pub beamline_status : Dict Value → Effect W (Dict Value)
  unfolding arg_or summaries
  beamline_status arguments =
      require_text (str "beamline cannot be empty and must be a string.")
        (arg arguments (str "beamline"))
      >>= λ beamline. services.search_devices beamline >>= λ devices w.
          answered beamline devices (summaries devices w)

  unfoldable pub tools : List (ToolDefinition W)
  unfolding get_device device_status diagnose_device beamline_status
  tools =
      reading (str "get_device") get_device_description device_name_schema get_device
      ∷ reading (str "device_status") device_status_description device_name_schema device_status
      ∷ reading (str "diagnose_device") diagnose_device_description device_name_schema
          diagnose_device
      ∷ reading (str "beamline_status") beamline_status_description beamline_schema beamline_status
      ∷ []
