-- ===== src/Documents/Teachers.antt =====
-- Who teaches a course, in the rows of users and memberships.
use docta.Prelude.{
  ◌≡◌, refl, true, ◌&&◌, none, some, find, find_holds, find-mem, mem-find, any-mem, mem-any, arith,
  eq_self, nat_eq, string_eq, ◌==◌, string_eq,
}
use mathlib.Core.List.{Memᴰ}
use docta.Models.{Uuid, User, CourseMembership, MembershipRole, teacher, is_teacher}
use docta.Identity.{AuthenticatedIdentity, is_identity}
use docta.Store.{Store}
use docta.Documents.Service.{teaches}

-- The identity is a user's, who is a member of the course as a teacher.
pub record IsTeacher (s : Store) (who : AuthenticatedIdentity) (course_id : Uuid) : Type 0 where
  pub user : User
  pub known : Memᴰ user s.users
  pub issuer : user.oidc_issuer ≡ who.issuer
  pub subject : user.oidc_subject ≡ who.subject
  pub membership : CourseMembership
  pub member : Memᴰ membership s.memberships
  pub of_user : membership.user_id ≡ user.id
  pub of_course : membership.course_id ≡ course_id
  pub role : membership.role ≡ teacher

is_teacher-role : (r : MembershipRole) → is_teacher r ≡ true → r ≡ teacher
is_teacher-role teacher h = refl
is_teacher-role MembershipRole.student h = cc

pub found-IsTeacher :
    (s : Store) (who : AuthenticatedIdentity) (course_id : Uuid) {u : User}
    → find (λ u. is_identity who u && teaches s course_id u) s.users ≡ some u
    → IsTeacher s who course_id
found-IsTeacher s who course_id {u} h =
    let p = λ (u : User). is_identity who u && teaches s course_id u in
    let holds = find_holds p s.users h in
    let (m, member, q) =
      any-mem
        (λ (m : CourseMembership).
          m.user_id == u.id && m.course_id == course_id && is_teacher m.role)
        s.memberships (ground arith) in
    record {
      user = u;
      known = find-mem p s.users h;
      issuer = (string_eq.same_iff u.oidc_issuer who.issuer).0 (ground arith);
      subject = (string_eq.same_iff u.oidc_subject who.subject).0 (ground arith);
      membership = m;
      member = member;
      of_user = ground arith;
      of_course = ground arith;
      role = is_teacher-role m.role (ground arith);
    }

pub nobody-IsTeacher :
    (s : Store) (who : AuthenticatedIdentity) (course_id : Uuid)
    → find (λ u. is_identity who u && teaches s course_id u) s.users ≡ none
    → ¬ IsTeacher s who course_id
nobody-IsTeacher s who course_id h = λ t.
    let p = λ (u : User). is_identity who u && teaches s course_id u in
    let q = λ (m : CourseMembership).
      m.user_id == t.user.id && m.course_id == course_id && is_teacher m.role in
    let fits : q t.membership ≡ true =
      rw (t.of_user, t.of_course, t.role, eq_self t.user.id, eq_self course_id) refl in
    let taught : teaches s course_id t.user ≡ true = mem-any q s.memberships t.member fits in
    let own : is_identity who t.user ≡ true =
      rw (t.issuer, t.subject, eq_self who.issuer, eq_self who.subject) refl in
    let both : p t.user ≡ true = rw (own, taught) refl in
    let (u, found) = mem-find p s.users t.known both in cc
