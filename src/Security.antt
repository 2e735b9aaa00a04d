-- ===== src/Security.antt =====
-- crates/omni-security: who may connect. trust.rs holds the policy, store.rs the port to what is
-- remembered (`TrustStore`) and its in-memory adapter.
pub mod Policy
pub mod Authority
pub mod Memory
pub mod History
