-- ===== src/Python.antt =====
-- What the modules take from Python itself: exceptions and their classes, the outcome of a call,
-- `time.monotonic` and `time.sleep`, signed arguments, exact quotients in place of
-- floats, and bytes.
mod Exceptions
mod Time
mod Quotients
mod Int
mod Names
mod Encoding
pub mod Dict
pub mod Sets
unfoldable pub use Exceptions.*
pub use Time.*
pub use Quotients.*
unfoldable pub use Int.*
unfoldable pub use Names.*
pub use Encoding.*
