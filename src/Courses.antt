-- ===== src/Courses.antt =====
-- apps/api/src/docta_api/courses.py: the creation of courses and their view.
mod Service
mod Creation
unfoldable pub use Service.*
pub use Creation.{IsFresh, create_course-again}
