-- ===== src/Tests/Courses.antt =====
-- courses.py on a new identity.
use docta.Prelude.{◌≡◌, refl, some, [], ◌∷◌, ok}
use docta.Models.{teacher}
use docta.Text.{codes, strip, lstrip, rstrip, is_space}
use docta.Courses.{
  CourseStore, CourseView, create_course, create_for, user_for, previous_course, insert_course,
  new_course, view_as, create_course-again,
}
use docta.Tests.Conversations.{who, two_messages}

abbrev start : CourseStore
start = record { base = record two_messages.base { users = []; memberships = [] }; creations = [] }

abbrev view : CourseView
view = view_as teacher (new_course 1 0 (codes "c"))

abbrev created : CourseStore
created = insert_course 1 0 8 (codes "c") (some (codes "k")) (record start {
  base = record start.base {
    users = record { id = 8; oidc_issuer = "i"; oidc_subject = "s" } ∷ [];
  };
})

first : create_course 8 1 0 who (codes "c") (some (codes "k")) start ≡ ok (view, created)
unfolding create_course create_for user_for previous_course strip lstrip rstrip is_space
first = refl

create_course-again_example :
    create_course 9 2 5 who (codes "c") (some (codes "k")) created ≡ ok (view, created)
create_course-again_example =
    create_course-again 8 1 0 9 2 5 who (codes "c") (codes "k") start
      (record { course = refl; members = refl; created = tt }) first
