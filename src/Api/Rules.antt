-- ===== src/Api/Rules.antt =====
-- How a handler of api/v1 is followed to its end, what it answers on the way, and how it can end.
mod Answering
mod Running
mod Outcomes
pub use Answering.*
pub use Running.*
pub use Outcomes.*
