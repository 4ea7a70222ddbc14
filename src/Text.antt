-- ===== src/Text.antt =====
-- What the program uses of Python's `str`: a text is the list of its code points.
mod Strip
mod Search
mod Show
unfoldable pub use Strip.*
unfoldable pub use Search.*
unfoldable pub use Show.*
