-- ===== src/Saved.antt =====
-- core/yaml_store.py: how a record is written to state.yaml and read back. PyYAML turns the text
-- into the values of `Values`; what is modelled is what the store makes of these. Python checks no
-- types here: where a key holds a value of another type than the writer's, and the source has no
-- rule for it, the reading is `unexpected`.
pub mod Values
pub mod Records
pub mod Files
pub mod Fields
pub mod Roundtrip
pub mod Stable
pub mod Refined
pub mod Ports
mod Tests
