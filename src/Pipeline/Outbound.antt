-- ===== src/Pipeline/Outbound.antt =====
-- sphere/src/pipeline/outbound: the filters that a response passes.
pub mod ResultSize
pub mod LeakDetection
pub mod InjectionEcho
pub mod ResponseClassifier
pub mod Hallucination
