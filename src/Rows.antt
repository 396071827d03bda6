-- ===== src/Rows.antt =====
-- The abstract view of the aggregates: a row for each restaurant, branch, product or region and
-- day, six counters in each row, and what an event adds to them. It forgets how a row is stored.
mod Sums
unfoldable pub use Sums.*
pub mod Changes
