-- ===== src/Python.antt =====
-- The part of Python that the program's logic stands on: JSON values, texts and exceptions.
mod Text
mod Values
mod Errors
mod Host
mod Access
unfoldable pub use Text.*
unfoldable pub use Values.*
unfoldable pub use Errors.*
unfoldable pub use Host.*
unfoldable pub use Access.*
