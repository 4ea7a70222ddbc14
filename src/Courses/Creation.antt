-- ===== src/Courses/Creation.antt =====
-- A course that is created again under its key.
use docta.Prelude.{
  ◌≡◌, refl, sym, ◌∙◌, ap, Bool, true, false, none, some, is_some, List, [], ◌∷◌, ◌++◌, ok,
  >>=-eq-ok, raise_if, find, find_by, All, All-find, inl, inr, Bool-cases, Option-cases, arith,
  ◌==◌, eq_self, nat_eq, list_eq, string_eq,
}
use mathlib.Core.Path.{subst}
use docta.Models.{Uuid, Time, User, Course, CourseMembership, teacher}
use docta.Text.{Text, strip}
use docta.Identity.{AuthenticatedIdentity, is_identity}
use docta.Courses.Service.{
  CourseCreation, CourseStore, api_error, CourseView, view_as, is_bad_key, user_for, create_for,
  is_creation, is_membership, previous_course, repeat_course, new_course, insert_course,
  create_course,
}

module _ {ℓ} {A : Type ℓ} where
  find-snoc :
      (p : A → Bool) (xs : List A) (x : A)
      → find p xs ≡ none
      → p x ≡ true
      → find p (xs ++ x ∷ []) ≡ some x
  find-snoc p [] x h e = rw e refl
  find-snoc p (y ∷ xs) x h e = elim (Bool-cases (p y)) [
    | inl b ↦ ground arith
    | inr b ↦ rw b (find-snoc p xs x (rw b at h) e)
  ]

  none-weaken :
      (p q : A → Bool) (xs : List A)
      → ((x : A) → q x ≡ true → p x ≡ true)
      → find p xs ≡ none
      → find q xs ≡ none
  none-weaken p q [] k h = refl
  none-weaken p q (x ∷ xs) k h = ground (arith, k x, none-weaken p q xs k)

user_for-again :
    (p p' : Uuid) (who : AuthenticatedIdentity) (us : List User)
    → user_for p' who (user_for p who us).1 ≡ user_for p who us
unfolding user_for
user_for-again p p' who us = elim (Option-cases (find (is_identity who) us)) [
  | inl e ↦
      let new : User = record { id = p; oidc_issuer = who.issuer; oidc_subject = who.subject } in
      let same : is_identity who new ≡ true = rw (eq_self who.issuer, eq_self who.subject) refl in
      let made : user_for p who us ≡ (p, us ++ new ∷ []) = rw (e, user_for) refl in
      let found = find-snoc (is_identity who) us new e same in
      subst (λ r. user_for p' who r.1 ≡ r) (sym made) (rw (found, user_for) refl)
  | inr (u, e) ↦
      let made : user_for p who us ≡ (u.id, us) = rw (e, user_for) refl in
      subst (λ r. user_for p' who r.1 ≡ r) (sym made) (rw (e, user_for) refl)
]

-- The id of a new course is in no table, and each creation's course is stored.
pub record IsFresh (id : Uuid) (s : CourseStore) : Type 0 where
  pub course : find_by (λ (c : Course). c.id) id s.base.courses ≡ none
  pub members : find (λ (m : CourseMembership). m.course_id == id) s.base.memberships ≡ none
  pub created :
      All
        (λ (c : CourseCreation).
          is_some (find_by (λ (d : Course). d.id) c.course_id s.base.courses) ≡ true)
        s.creations

no_creation :
    (id user_id : Uuid) (key : Text) (s : CourseStore)
    → IsFresh id s
    → previous_course user_id (some key) s ≡ none
    → find (is_creation user_id (strip key)) s.creations ≡ none
unfolding previous_course
no_creation id user_id key s fresh h =
    elim (Option-cases (find (is_creation user_id (strip key)) s.creations)) [
      | inl e ↦ e
      | inr (c, e) ↦
          let there = All-find _ (is_creation user_id (strip key)) s.creations e fresh.created in
          let gone : find_by (λ (d : Course). d.id) c.course_id s.base.courses ≡ none =
            rw (e, previous_course) at h in
          let clash = rw gone at there in cc
    ]

-- After a course was inserted under a key, the key finds it, and its creator teaches it.
insert_course-repeat :
    (id user_id : Uuid) (now : Time) (title key : Text) (s : CourseStore)
    → IsFresh id s
    → previous_course user_id (some key) s ≡ none
    → let s' = insert_course id now user_id title (some key) s in
      (previous_course user_id (some key) s' ≡ some (new_course id now title))
      × (repeat_course user_id title (new_course id now title) s'
          ≡ ok (view_as teacher (new_course id now title), s'))
unfolding insert_course previous_course repeat_course
insert_course-repeat id user_id now title key s fresh h =
    let creation : CourseCreation = record {
      user_id = user_id;
      idempotency_key = strip key;
      course_id = id;
    } in
    let found =
      find-snoc (is_creation user_id (strip key)) s.creations creation
        (no_creation id user_id key s fresh h) (rw (eq_self user_id, eq_self (strip key)) refl) in
    let course =
      find-snoc (λ (d : Course). d.id == id) s.base.courses (new_course id now title) fresh.course
        (eq_self id) in
    let membership : CourseMembership = record {
      course_id = id;
      user_id = user_id;
      role = teacher;
    } in
    let members =
      find-snoc (is_membership id user_id) s.base.memberships membership
        (none-weaken (λ (m : CourseMembership). m.course_id == id) (is_membership id user_id)
          s.base.memberships (λ m e. ground arith) fresh.members)
        (rw (eq_self id, eq_self user_id) refl) in
    (rw (found, previous_course) course, rw (members, eq_self title) refl)

repeat_course-ok :
    (user_id : Uuid) (title : Text) (c : Course) (s : CourseStore) {v : CourseView}
    {s' : CourseStore}
    → repeat_course user_id title c s ≡ ok (v, s')
    → s' ≡ s
unfolding repeat_course
repeat_course-ok user_id title c s h = ground arith

create_course-found :
    (proposed id : Uuid) (now : Time) (who : AuthenticatedIdentity) (title key : Text)
    (user_id : Uuid) (c : Course) (s : CourseStore) {v : CourseView}
    → is_bad_key (some key) ≡ false
    → user_for proposed who s.base.users ≡ (user_id, s.base.users)
    → previous_course user_id (some key) s ≡ some c
    → repeat_course user_id title c s ≡ ok (v, s)
    → create_course proposed id now who title (some key) s ≡ ok (v, s)
unfolding create_course create_for
create_course-found proposed id now who title key user_id c s {v} good user previous repeated =
    rw good (
      subst (λ r. create_for r id now title (some key) s ≡ ok (v, s)) (sym user)
        (rw (previous, create_for) repeated))

-- After a course was created under a key, with an id that no course or membership had before, the same
-- identity creating the same title under the same key at once gets the same view, whatever ids are
-- drawn, and nothing is stored.
pub create_course-again :
    (proposed id : Uuid) (now : Time) (proposed' id' : Uuid) (now' : Time)
    (who : AuthenticatedIdentity) (title key : Text) (s : CourseStore) {v : CourseView}
    {s' : CourseStore}
    → IsFresh id s
    → create_course proposed id now who title (some key) s ≡ ok (v, s')
    → create_course proposed' id' now' who title (some key) s' ≡ ok (v, s')
unfolding create_course create_for insert_course
create_course-again proposed id now proposed' id' now' who title key s {v} {s'} fresh h =
    let u = user_for proposed who s.base.users in
    let t : CourseStore = record s { base = record s.base { users = u.1 } } in
    let (_, valid, h₁) =
      >>=-eq-ok
        (raise_if (is_bad_key (some key))
          (api_error 400 "idempotency_key_required" "A valid Idempotency-Key is required."))
        _ h in
    let good : is_bad_key (some key) ≡ false = ground arith in
    let again = user_for-again proposed proposed' who s.base.users in
    let fresh_t : IsFresh id t = record {
      course = fresh.course;
      members = fresh.members;
      created = fresh.created;
    } in
    elim (Option-cases (previous_course u.0 (some key) t)) [
      | inl new ↦
          let h₂ = rw (new, create_for) at h₁ in
          let (found, repeated) = insert_course-repeat id u.0 now title key t fresh_t new in
          let made : insert_course id now u.0 title (some key) t ≡ s' = ground arith in
          let shown : view_as teacher (new_course id now title) ≡ v = ground arith in
          subst (λ r. create_course proposed' id' now' who title (some key) r ≡ ok (v, r)) made
            (create_course-found proposed' id' now' who title key u.0 (new_course id now title)
              (insert_course id now u.0 title (some key) t) good again found
              (repeated ∙ ap (λ x. ok (x, insert_course id now u.0 title (some key) t)) shown))
      | inr (c, old) ↦
          let h₂ = rw (old, create_for) at h₁ in
          let same : s' ≡ t = repeat_course-ok u.0 title c t h₂ in
          subst (λ r. create_course proposed' id' now' who title (some key) r ≡ ok (v, r))
            (sym same)
            (create_course-found proposed' id' now' who title key u.0 c t good again old
              (h₂ ∙ ap (λ x. ok (v, x)) same))
    ]
