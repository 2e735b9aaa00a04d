-- ===== src/Topology.antt =====
-- crates/omni-topology: the virtual desktop that the connected machines form.
pub mod Geometry
pub mod Layout
pub mod Store
