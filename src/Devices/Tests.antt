-- ===== src/Devices/Tests.antt =====
-- Three channels of two devices, and a ChannelFinder whose single-channel call fails otherwise.
use argus_mcp_server.Diagnostics.{Device}
use argus_mcp_server.Errors.{argus, unexpected, ErrorClass, ok, raise}
use argus_mcp_server.Prelude.{ℕ, suc, Str, str, true, [], ◌∷◌, List, none, map}
use argus_mcp_server.Devices.{CfChannel, ChannelFinder, group, build_device}

abbrev channel : Str → Str → CfChannel
channel name device = record {
  name = name;
  owner = none;
  properties = (str "device", device) ∷ [];
  tags = [];
}

abbrev channels : List CfChannel
channels =
    channel (str "Q1:SP") (str "Q1")
    ∷ channel (str "Q2:SP") (str "Q2")
    ∷ channel (str "Q1:RB") (str "Q1")
    ∷ []

abbrev finder : ChannelFinder ℕ
finder = record {
  is_configured = true;
  find_by_device = λ name w. (raise (argus ErrorClass.channelfinder_timeout (str "slow")), suc w);
  find_by_name = λ query w. (ok channels, suc w);
  get_channel = λ name w. (raise (unexpected (str "no name in the answer")), suc w);
}

abbrev found : List Device
found = map (λ e. build_device e.0 e.1) (group [] channels)
