-- ===== src/Dict.antt =====
-- Python's `dict` with texts as keys, in insertion order.
mod Laws
pub use Laws.*
