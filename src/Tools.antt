-- ===== src/Tools.antt =====
-- sphere/src/tools: the registry, the executor and the interceptor of tool calls.
pub mod Registry
pub mod Json
pub mod ScopedClient
pub mod Executor
pub mod Interceptor
