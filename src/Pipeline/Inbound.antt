-- ===== src/Pipeline/Inbound.antt =====
-- sphere/src/pipeline/inbound: the filters that a request's messages pass.
pub mod Sanitization
pub mod Budget
pub mod Boundary
pub mod Topic
pub mod Classifier
pub mod Redaction
