-- ===== src/Guardrail.antt =====
-- The streaming guardrail of task3_streaming_guardrail/.
pub mod Sse
pub mod Redactor
pub mod Pool
pub mod Payload
pub mod Residue
pub mod Gateway
pub mod Endpoint
