-- ===== src/SaveRestore/Provider/Records.antt =====
-- argus/providers/saverestore/saverestore.py: a configuration and a stored snapshot, read by their
-- ids, and the health check; and that a configuration is read as it was sent.
use argus_mcp_server.Effects.{Effect, ◌>>=◌}
use argus_mcp_server.Errors.{ok, raise}
use argus_mcp_server.Health.{ProviderHealth, below_500, check_health}
use argus_mcp_server.Http.{Http}
use argus_mcp_server.Prelude.{
  Str, str, ◌++◌, Bool, true, false, List, [], ◌∷◌, Option, none, some, All, nonempty, ◌≡◌, refl,
  str_beq,
}
use argus_mcp_server.Registry.Register.{get_field}
use argus_mcp_server.SaveRestore.Decode.{item, a_text, cons_both, to_snapshot_values}
use argus_mcp_server.SaveRestore.Nodes.{SnrSnapshotValue}
use argus_mcp_server.SaveRestore.Plan.{SnrPvEntry}
use argus_mcp_server.SaveRestore.Provider.{get_call, configuration_body, pv_entry, pv_entries}
use argus_mcp_server.SaveRestore.Provider.Requests.{request, require_configured, shaped, lift}
use argus_mcp_server.Tools.Arguments.{iterate, listed}
use argus_mcp_server.Values.{Value, text, truth}

pub record SnrConfiguration : Type 0 where
  pub unique_id : Str
  pub pv_list : List SnrPvEntry

pub record SnrSnapshot : Type 0 where
  pub unique_id : Str
  pub items : List SnrSnapshotValue

abbrev truth_of : Option Value → Bool
truth_of none = false
truth_of (some v) = truth v

-- None where Python raises a KeyError or a TypeError.
unfoldable pub to_pv_entry : Value → Option SnrPvEntry
unfolding item
to_pv_entry v = elim (a_text (item v (str "pvName"))) [
  | none ↦ none
  | some pv_name ↦ some (record {
    pv_name = pv_name;
    readback_pv_name = a_text (item v (str "readbackPvName"));
    read_only = truth_of (item v (str "readOnly"));
  })
]

unfoldable pub to_pv_entries : List Value → Option (List SnrPvEntry)
unfolding to_pv_entry
to_pv_entries [] = some []
to_pv_entries (v ∷ vs) = cons_both (to_pv_entry v) (to_pv_entries vs)

-- `payload[key]`, as a list.
unfoldable pub elements : Option Value → Option (List Value)
unfolding iterate
elements none = none
elements (some v) = elim (iterate v) [ ok vs ↦ some vs | raise e ↦ none ]

abbrev pv_list_of : Option (List Value) → Option (List SnrPvEntry)
pv_list_of none = none
pv_list_of (some vs) = to_pv_entries vs

abbrev configuration_of : Option (List SnrPvEntry) → Option Str → Option SnrConfiguration
configuration_of (some pv_list) (some unique_id) =
    some (record { unique_id = unique_id; pv_list = pv_list })
configuration_of _ _ = none

abbrev snapshot_of : List SnrSnapshotValue → Option Str → Option SnrSnapshot
snapshot_of items (some unique_id) = some (record { unique_id = unique_id; items = items })
snapshot_of items none = none

module _ {W : Type 0} (http : Http W) (configured : Bool) (why : Value → Str) where
  unfoldable pub get_configuration : Str → Effect W SnrConfiguration
  unfolding request to_pv_entries item elements
  get_configuration config_id = require_configured configured >>= λ u.
      request http (get_call (str "/config/" ++ config_id) []) >>= λ payload.
      shaped why (str "config") payload (
        configuration_of (pv_list_of (elements (item payload (str "pvList"))))
          (a_text (item payload (str "uniqueId"))))

  -- An item that is no dictionary raises an AttributeError, which nothing catches.
  unfoldable pub get_snapshot : Str → Effect W SnrSnapshot
  unfolding request to_snapshot_values item elements
  get_snapshot snapshot_id = require_configured configured >>= λ u.
      request http (get_call (str "/snapshot/" ++ snapshot_id) []) >>= λ payload.
      shaped why (str "snapshot") payload (elements (item payload (str "snapshotItems"))) >>= λ vs.
      lift (to_snapshot_values vs) >>= λ items.
      shaped why (str "snapshot") payload
        (snapshot_of items (a_text (item payload (str "uniqueId"))))

module _ {W : Type 0} (http : Http W) (timeout_text : Str) where
  unfoldable pub health : (configured : Bool) → W → ProviderHealth × W
  unfolding check_health
  health configured =
      check_health http timeout_text (str "saverestore") (below_500 (str "saverestore")) configured
        (str "/")

-- A readback that is given is not empty.
abbrev pub HasReadback : SnrPvEntry → Type 0
HasReadback pv = elim pv.readback_pv_name [ none ↦ Unit {0} | some r ↦ nonempty r ≡ true ]

to_pv_entry-pv_entry :
    (pv_name : Str) (readback : Option Str) (read_only : Bool)
    → HasReadback (record { pv_name = pv_name; readback_pv_name = readback; read_only = read_only })
    → to_pv_entry (
        pv_entry (record { pv_name = pv_name; readback_pv_name = readback; read_only = read_only }))
      ≡ some (record { pv_name = pv_name; readback_pv_name = readback; read_only = read_only })
unfolding to_pv_entry item get_field truth str_beq
to_pv_entry-pv_entry pv_name none read_only h = refl
to_pv_entry-pv_entry pv_name (some r) read_only h = rw h refl

to_pv_entries-pv_entries :
    (pvs : List SnrPvEntry)
    → All HasReadback pvs
    → to_pv_entries (listed (pv_entries pvs)) ≡ some pvs
unfolding to_pv_entries pv_entries listed
to_pv_entries-pv_entries [] h = refl
to_pv_entries-pv_entries (pv ∷ pvs) h =
    rw
      (
        to_pv_entry-pv_entry pv.pv_name pv.readback_pv_name pv.read_only h.0,
        to_pv_entries-pv_entries pvs h.1,
      )
      refl

-- The "pvList" that creating a configuration sends.
abbrev pub sent_list : (name : Str) → List SnrPvEntry → (description : Str) → Option Value
sent_list name pv_list description =
    elim (item (configuration_body name pv_list description) (str "configurationData")) [
      | none ↦ none
      | some sent ↦ item sent (str "pvList")
    ]

module _ {W : Type 0} (http : Http W) (why : Value → Str) where
  -- A configuration is read whose JSON holds the list of PVs that was sent when it was created, where
  -- no PV has an empty text as its readback, and the id as a text. The PVs that are read are those that
  -- were given to be sent: their names, readbacks and read-only marks, in their order.
  pub get_configuration-configuration_body :
      (config_id name description : Str) (pvs : List SnrPvEntry) (payload : Value) (w w' : W)
      → All HasReadback pvs
      → request http (get_call (str "/config/" ++ config_id) []) w ≡ (ok payload, w')
      → item payload (str "pvList") ≡ sent_list name pvs description
      → item payload (str "uniqueId") ≡ some (text config_id)
      → get_configuration http true why config_id w
        ≡ (ok (record { unique_id = config_id; pv_list = pvs }), w')
  unfolding get_configuration item get_field elements iterate str_beq configuration_body
  get_configuration-configuration_body config_id name description pvs payload w w' hs hr hl hi =
      rw (hr, hl, hi, to_pv_entries-pv_entries pvs hs) refl
