-- ===== src/Courses/Service.antt =====
-- courses.py: `CourseCreateRequest`, `CourseService`, and `require_identity`. The ids that are drawn
-- are arguments. A user whose insertion conflicts is found, so the error for a missing one is left out.
use docta.Prelude.{
  ℕ, Bool, false, not, ◌&&◌, ◌||◌, Option, none, some, List, [], ◌∷◌, ◌++◌, String, Result, ok,
  ◌>>=◌, ◌>>◌, raise_if, or_raise, if◌then◌else◌, ltb, length, is_empty, find, find_by, ◌==◌, ◌!=◌,
  nat_eq, list_eq, option_eq, string_eq,
}
use docta.Models.{Uuid, Time, User, Course, CourseMembership, MembershipRole, teacher, is_teacher}
use docta.Text.{Text, strip, is_blank}
use docta.Contract.{sized}
use docta.Identity.{AuthenticatedIdentity, is_identity}
use docta.Store.{Store}

pub record CourseCreation : Type 0 where
  pub user_id : Uuid
  pub idempotency_key : Text
  pub course_id : Uuid

-- The table of the creations beside those of the other services.
pub record CourseStore : Type 0 where
  pub base : Store
  pub creations : List CourseCreation

pub data CourseError : Type 0 where
  api_error : (status_code : ℕ) (code message : String) → CourseError
  course_not_found : CourseError

pub record CourseView : Type 0 where
  pub id : Uuid
  pub title : Text
  pub role : MembershipRole
  pub version : ℕ
  pub active_corpus_version_id : Option Uuid

-- `CourseCreateRequest`: the title that is kept, or none for a `ValueError`
unfoldable pub normalize_title : Text → Option Text
normalize_title title =
    if sized 1 200 title && not (is_blank title) then some (strip title) else none

abbrev pub view_as : MembershipRole → Course → CourseView
view_as role c = record {
  id = c.id;
  title = c.title;
  role = role;
  version = c.version;
  active_corpus_version_id = c.active_corpus_version_id;
}

-- `not (0 < len(key.strip()) <= 255)` for a key
abbrev pub is_bad_key : Option Text → Bool
is_bad_key none = false
is_bad_key (some key) = is_empty (strip key) || ltb 255 (length (strip key))

-- the user of the identity, inserted if there is none
unfoldable pub user_for : (proposed : Uuid) → AuthenticatedIdentity → List User → Uuid × List User
user_for proposed who users = elim (find (is_identity who) users) [
  | some u ↦ (u.id, users)
  | none ↦ (
    proposed,
    users ++ record { id = proposed; oidc_issuer = who.issuer; oidc_subject = who.subject } ∷ [],
  )
]

abbrev pub is_creation : Uuid → Text → CourseCreation → Bool
is_creation user_id key c = c.user_id == user_id && c.idempotency_key == key

abbrev pub is_membership : (course_id user_id : Uuid) → CourseMembership → Bool
is_membership course_id user_id m = m.course_id == course_id && m.user_id == user_id

-- the course that the user created under the key
unfoldable pub previous_course : Uuid → Option Text → CourseStore → Option Course
previous_course user_id none s = none
previous_course user_id (some key) s = elim (find (is_creation user_id (strip key)) s.creations) [
  | none ↦ none
  | some c ↦ find_by (λ (d : Course). d.id) c.course_id s.base.courses
]

abbrev pub teaches_it : Option CourseMembership → Bool
teaches_it none = false
teaches_it (some m) = is_teacher m.role

-- `if previous is not None: …`
unfoldable pub repeat_course :
    Uuid → (title : Text) → Course → CourseStore → Result CourseError (CourseView × CourseStore)
repeat_course user_id title previous s = do
  raise_if (not (teaches_it (find (is_membership previous.id user_id) s.base.memberships)))
      (api_error 404 "course_not_found" "The course was not found.")
  raise_if (previous.title != title)
      (api_error 409 "idempotency_key_reused" "The key belongs to another request.")
  ok (view_as teacher previous, s)

abbrev pub new_course : (id : Uuid) (now : Time) → Text → Course
new_course id now title = record {
  id = id;
  title = title;
  version = 0;
  active_corpus_version_id = none;
  updated_at = now;
}

abbrev pub new_creations : Uuid → Option Text → Uuid → List CourseCreation
new_creations user_id none course_id = []
new_creations user_id (some key) course_id =
    record { user_id = user_id; idempotency_key = strip key; course_id = course_id } ∷ []

-- the rows of a new course
unfoldable pub insert_course :
    (id : Uuid) (now : Time) (user_id : Uuid) → Text → Option Text → CourseStore → CourseStore
insert_course id now user_id title key s = record s {
  base = record s.base {
    courses = s.base.courses ++ new_course id now title ∷ [];
    memberships =
        s.base.memberships ++ record { course_id = id; user_id = user_id; role = teacher } ∷ [];
  };
  creations = s.creations ++ new_creations user_id key id;
}

-- `create_course` for a user among the users after the insertion
unfoldable pub create_for :
    Uuid × List User
    → (id : Uuid) (now : Time) (title : Text) → Option Text
    → CourseStore
    → Result CourseError (CourseView × CourseStore)
create_for (user_id, users) id now title key s₀ =
    let s : CourseStore = record s₀ { base = record s₀.base { users = users } } in
    elim (previous_course user_id key s) [
      | some previous ↦ repeat_course user_id title previous s
      | none ↦
          ok (view_as teacher (new_course id now title), insert_course id now user_id title key s)
    ]

-- `CourseService.create_course`
unfoldable pub create_course :
    (proposed id : Uuid) (now : Time)
    → AuthenticatedIdentity
    → (title : Text) → Option Text
    → CourseStore
    → Result CourseError (CourseView × CourseStore)
create_course proposed id now who title key s =
    raise_if (is_bad_key key)
      (api_error 400 "idempotency_key_required" "A valid Idempotency-Key is required.")
    >> create_for (user_for proposed who s.base.users) id now title key s

-- `CourseService.get_course`; the keys of the tables leave at most one row of the join
unfoldable pub get_course :
    AuthenticatedIdentity → (course_id : Uuid) → CourseStore → Result CourseError CourseView
get_course who course_id s = do
  c ← or_raise (find_by (λ (c : Course). c.id) course_id s.base.courses) course_not_found
  u ← or_raise (find (is_identity who) s.base.users) course_not_found
  m ← or_raise (find (is_membership course_id u.id) s.base.memberships) course_not_found
  ok (view_as m.role c)
