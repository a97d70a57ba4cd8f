-- ===== src/Tools/Schemas.antt =====
-- What the tool modules of argus/mcp_server/tools advertise. Build writes what the schemas share.
pub mod Build
pub mod Pv
pub mod Ops
pub mod History
pub mod SaveRestore
pub mod Device
pub mod Docs
pub mod Hub
pub mod Logs
pub mod Knowledge
pub mod Beamline
