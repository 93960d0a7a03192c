-- ===== src/Identifiers.antt =====
-- rust_qsim/src/simulation/id/id_store.rs: the store that numbers external names, for each type of thing from 0 on.
-- `none` is a panic, or the absent value of an `Option`. A text is the list of its bytes.
pub mod Store
pub mod Dense
pub mod Reload
pub mod Tests
