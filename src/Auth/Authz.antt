-- ===== src/Auth/Authz.antt =====
-- services/auth/app/core/authz.py: who a request comes from. The decoding of an access token and
-- the answer of Redis are parameters.
mod Tests
use theft_detection_platform.Prelude.{
  ◌≡◌, ◌≢◌, sym, Bool, true, false, not, ◌||◌, inl, inr, Option, none, some, arith, bytes_eq_refl,
  if◌then◌else◌, Option-cases, Result, Result-cases, ok, err, ◌>>=◌, ◌>>◌, raise_if, All-find?,
}
use theft_detection_platform.Auth.Records.{
  Text, User, Role, Actor, Tables, AuthDb, HttpError, not_authenticated, not_permitted,
  revocation_store_unavailable,
}
use theft_detection_platform.Auth.Repositories.{has_role, user_rows, get_user}
use theft_detection_platform.Auth.Login.{Claims, is_empty}
use theft_detection_platform.Auth.Users.Dropped.{IsDisabled}

module _ (T : Tables) (decode_access_token : Text → Option Claims)
    (is_token_revoked : (jti session_id : Text) → Option Bool) where
  -- The user of the claims, behind the check of the revocations.
  unfoldable pub find_actor : Claims → AuthDb T → Result HttpError Actor
  find_actor claims db = elim (get_user T db claims.sub) [
    | none ↦ err not_authenticated
    | some user ↦
        if not user.is_active
        then err not_authenticated
        else ok (record {
          user_id = user.id;
          username = user.username;
          roles = user.roles;
          session_id = claims.sid;
        })
  ]

  unfoldable pub current_actor : (token : Text) → AuthDb T → Result HttpError Actor
  current_actor token db =
      raise_if (is_empty token) not_authenticated >> elim (decode_access_token token) [
        | none ↦ err not_authenticated
        | some claims ↦
            raise_if (is_empty claims.jti || is_empty claims.sid) not_authenticated
            >> elim (is_token_revoked claims.jti claims.sid) [
              | none ↦ err revocation_store_unavailable
              | some revoked ↦ raise_if revoked not_authenticated >> find_actor claims db
            ]
      ]

  unfoldable pub require_admin : (token : Text) → AuthDb T → Result HttpError Actor
  require_admin token db = current_actor token db >>= λ actor.
      raise_if (not (has_role Role.admin actor.roles)) not_permitted >> ok actor

  -- What an actor rests on: a token that decodes, that is not revoked, and an active user.
  pub record IsActor (token : Text) (db : AuthDb T) (actor : Actor) : Type 0 where
    pub claims : Claims
    pub user : User
    pub decoded : decode_access_token token ≡ some claims
    pub unrevoked : is_token_revoked claims.jti claims.sid ≡ some false
    pub known : get_user T db claims.sub ≡ some user
    pub active : user.is_active ≡ true
    pub for_user : actor.user_id ≡ user.id
    pub with_roles : actor.roles ≡ user.roles
    pub for_session : actor.session_id ≡ claims.sid

  pub current_actor-IsActor :
      (token : Text) (db : AuthDb T) {actor : Actor}
      → current_actor token db ≡ ok actor
      → IsActor token db actor
  unfolding current_actor find_actor
  current_actor-IsActor token db {actor} h = elim (Option-cases (decode_access_token token)) [
    | inl invalid ↦ absurd (ground arith)
    | inr (claims, decoded) ↦ elim (Option-cases (is_token_revoked claims.jti claims.sid)) [
      | inl down ↦ absurd (ground arith)
      | inr (revoked, answered) ↦ elim (Option-cases (get_user T db claims.sub)) [
        | inl missing ↦ absurd (ground arith)
        | inr (user, known) ↦ record {
          claims = claims;
          user = user;
          decoded = decoded;
          unrevoked = ground arith;
          known = known;
          active = ground arith;
          for_user = ground arith;
          with_roles = ground arith;
          for_session = ground arith;
        }
      ]
    ]
  ]

  -- A request that the administrators' endpoints let through comes with a token that decodes, whose
  -- token and session are not revoked, and whose subject is an active user; that user's row has the
  -- role of an administrator, and is not disabled.
  pub require_admin-IsActor :
      (token : Text) (db : AuthDb T) {actor : Actor}
      → require_admin token db ≡ ok actor
      → IsActor token db actor
        × (has_role Role.admin actor.roles ≡ true)
        × ((user_id : Text) → IsDisabled user_id (user_rows T db) → actor.user_id ≢ user_id)
  unfolding require_admin get_user
  require_admin-IsActor token db {actor} h = elim (Result-cases (current_actor token db)) [
    | inr (e, refused) ↦ absurd (ground arith)
    | inl (who, found) ↦
        let same : current_actor token db ≡ ok actor = ground arith in
        let is_actor = current_actor-IsActor token db {actor = actor} same in
        (
          is_actor,
          ground arith,
          λ user_id disabled its. ground (
            arith,
            is_actor.active,
            (All-find? _ _ (user_rows T db) disabled is_actor.known).0
                (rw (sym is_actor.for_user, its) (bytes_eq_refl user_id)),
          ),
        )
  ]
