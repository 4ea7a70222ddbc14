-- ===== src/Identity.antt =====
-- apps/api/src/docta_api/identity.py: the identity that a bearer token proves. Checking a token
-- (PyJWT) and `str.lower` are arguments.
use docta.Prelude.{
  Bool, true, false, not, ◌&&◌, ◌||◌, Option, none, some, [], ◌∷◌, String, Result, ok, err, ◌>>=◌,
  ◌>>◌, raise_if, if◌then◌else◌, nat_beq, ◌==◌, ◌!=◌, nat_eq, list_eq, string_eq,
}
use docta.Models.{User}
use docta.Text.{Text, codes, strip, is_blank}

pub record AuthenticatedIdentity : Type 0 where
  pub issuer : String
  pub subject : String

-- The row of the identity, by `uq_users_oidc_identity`.
abbrev pub is_identity : AuthenticatedIdentity → User → Bool
is_identity who u = u.oidc_issuer == who.issuer && u.oidc_subject == who.subject

pub data IdentityError : Type 0 where
  authentication_error identity_provider_unavailable : IdentityError

-- `claims.get("sub")` and `claims.get("iss")`, none if they are missing or no `str`
pub record Claims : Type 0 where
  pub sub : Option String
  pub iss : Option String

-- How the decoding of a token fails.
pub data DecodeError : Type 0 where
  -- `PyJWKClientConnectionError`
  connection_error : DecodeError
  -- `InvalidTokenError`, `PyJWKClientError`
  invalid_token : DecodeError
  other_error : DecodeError

abbrev pub decode_failure : DecodeError → IdentityError
decode_failure connection_error = identity_provider_unavailable
decode_failure invalid_token = authentication_error
decode_failure other_error = identity_provider_unavailable

-- `text.partition(" ")`: what stands before the first space, whether there is one, and what follows
unfoldable pub partition : Text → Text × Bool × Text
partition [] = ([], false, [])
partition (c ∷ t) =
    let (before, found, after) = partition t in
    if nat_beq c 32 then ([], true, t) else (c ∷ before, found, after)

abbrev pub non_blank : Option String → Result IdentityError String
non_blank none = err authentication_error
non_blank (some s) = raise_if (is_blank (codes s)) authentication_error >>= λ _. ok s

module _ (lower : Text → Text) where
  -- `_bearer_token`
  unfoldable pub bearer_token : Option Text → Result IdentityError Text
  bearer_token none = err authentication_error
  bearer_token (some authorization) =
      let (scheme, separated, token) = partition authorization in
      do
        raise_if (not separated || lower scheme != codes "bearer" || is_blank token)
            authentication_error
        ok (strip token)

  -- `OIDCJWTIdentityProvider.authenticate`
  unfoldable pub authenticate :
      (decode : Text → Result DecodeError Claims)
      → Option Text
      → Result IdentityError AuthenticatedIdentity
  authenticate decode authorization = do
    token ← bearer_token authorization
    claims ← elim (decode token) [ ok claims ↦ ok claims | err e ↦ err (decode_failure e) ]
    subject ← non_blank claims.sub
    issuer ← non_blank claims.iss
    ok (record { issuer = issuer; subject = subject })
