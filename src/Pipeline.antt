-- ===== src/Pipeline.antt =====
-- sphere/src/pipeline: the context, the filters and the chain that runs them.
pub mod Context
pub mod Regex
pub mod Inbound
pub mod Outbound
pub mod Chain
