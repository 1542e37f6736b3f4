-- ===== src/Cost.antt =====
-- cloudmark/cost.py: price observations that an operator declares. `Amounts` reads a price, `Parts` the other
-- parts of a request, `Observation` builds the observation and `Export` prints a table of them.
pub mod Amounts
pub mod RoundTrip
pub mod Parts
pub mod Observation
pub mod Csv
pub mod Export
pub mod Texts
pub mod Cells
pub mod Exporting
pub mod Refusals
pub mod Serving
