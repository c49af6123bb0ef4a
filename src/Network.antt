-- ===== src/Network.antt =====
-- The network layer: units, the builders that parse them, and the manager that drives a builder.
pub mod LogicUnit
pub mod IntegerBuilder
pub mod DstreamBuilder
pub mod RawBuilder
pub mod Manager
pub mod Connection
pub mod Server
pub mod ScopeRunner
pub mod MsgBuilder
pub mod StringBuilder
pub mod UnitBuilder
