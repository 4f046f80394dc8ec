-- ===== src/Operators.antt =====
-- include/wookie/operators.hpp: a search request with quoted phrases. `Scan` is `operators_found`
-- and `prepare`; `Match` is the phrase test of `on_result_ready`.
pub mod Scan
pub mod Match
pub mod Find
pub mod Wait
mod Tests
