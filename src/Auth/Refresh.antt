-- ===== src/Auth/Refresh.antt =====
-- `refresh` of services/auth/app/api/v1/auth.py and the functions that it calls. The clock, the new
-- token's name and secret, and the client's address and agent are arguments; the hash of a
-- refresh secret is a parameter. A handler that raises before its `commit` leaves the database as
-- it was.
pub mod Token
use theft_detection_platform.Prelude.{
  ℕ, zero, suc, ◌+◌, ◌*◌, ◌-◌, Bool, true, false, not, ◌&&◌, ◌||◌, Option, none, some, List, [],
  ◌∷◌, ◌++◌, bytes_eq, ltb, leb, ◌==◌, if◌then◌else◌, is_some, Result, ok, err,
}
use theft_detection_platform.Prelude.Table.{Table}
use theft_detection_platform.Auth.Records.{
  Text, RefreshToken, Session, User, AuditRecord, token_refreshed, refresh_reuse_detected, Tables,
  AuthDb, RedisCommand, revoke_sid, HttpError, session_invalid, account_disabled, csrf_missing,
  csrf_mismatch,
}
use theft_detection_platform.Auth.Repositories.{
  get_by_jti, get_by_jti_and_hash, create_token, mark_rotated, revoke_family, get_session,
  touch_session, revoke_session, get_user, enqueue,
}

-- `timedelta(seconds=n)`
abbrev pub seconds : ℕ → ℕ
seconds n = n * 1000000

abbrev pub max_successor_hops : ℕ
max_successor_hops = 3

abbrev pub dot : ℕ
dot = b'.'

unfoldable pub build_refresh_token : Text → Text → Text
build_refresh_token jti secret = jti ++ (dot ∷ secret)

-- `raw.split(".", 1)`: what stands before the first dot, and what stands behind it.
unfoldable pub split_dot : Text → Option (Text × Text)
split_dot [] = none
split_dot (c ∷ rest) =
    if c == dot
    then some ([], rest)
    else elim (split_dot rest) [ none ↦ none | some (before, after) ↦ some (c ∷ before, after) ]

abbrev non_empty : Text → Bool
non_empty [] = false
non_empty (_ ∷ _) = true

unfoldable pub split_refresh_token : Text → Option (Text × Text)
unfolding split_dot
split_refresh_token raw = elim (split_dot raw) [
  | none ↦ none
  | some (jti, secret) ↦
      if not (non_empty jti) || not (non_empty secret) then none else some (jti, secret)
]

-- `csrf_protect` of services/auth/app/core/csrf.py
unfoldable pub csrf_protect : Option Text → Option Text → Result HttpError (Unit {0})
csrf_protect (some (c ∷ cookie)) (some (h ∷ header)) =
    if bytes_eq (c ∷ cookie) (h ∷ header) then ok tt else err csrf_mismatch
csrf_protect _ _ = err csrf_missing

pub record RefreshSettings : Type 0 where
  pub refresh_rotation_grace_seconds : ℕ
  pub refresh_token_ttl_seconds : ℕ
  pub access_token_ttl_seconds : ℕ

-- What a request brings, and what the clock and the random generators give.
pub record RefreshInput : Type 0 where
  pub now : ℕ
  pub cookie : Option Text
  pub csrf_cookie : Option Text
  pub csrf_header : Option Text
  pub ip : Text
  pub user_agent : Text
  pub next_jti : Text
  pub next_secret : Text

-- The tokens that a successful answer sets; the access token carries these claims.
pub record Issued : Type 0 where
  pub user_id : Text
  pub username : Text
  pub roles : List Text
  pub session_id : Text
  pub refresh_token : Text

pub record Answer (T : Tables) : Type 0 where
  pub reply : Result HttpError Issued
  pub db : AuthDb T
  pub redis : List RedisCommand

-- The test on `rotated_at`; the clock does not run backwards from it.
unfoldable pub past_grace : RefreshToken → ℕ → ℕ → Bool
past_grace stored now grace_seconds = elim stored.rotated_at [
  | none ↦ true
  | some at ↦ ltb (seconds grace_seconds) (now - at)
]

module _ (T : Tables) where
  -- The loop over the successors.
  unfoldable pub follow : ℕ → AuthDb T → ℕ → RefreshToken → Option RefreshToken
  follow zero db now cursor = none
  follow (suc hops) db now cursor = elim cursor.replaced_by [
    | none ↦ none
    | some next ↦ elim (get_by_jti T db next) [
      | none ↦ none
      | some candidate ↦
          let rest = follow hops db now candidate in
          if not candidate.revoked && ltb now candidate.expires_at then some candidate else rest
    ]
  ]

  unfoldable pub resolve_presented_refresh : RefreshToken → AuthDb T → ℕ → ℕ → Option RefreshToken
  unfolding past_grace
  resolve_presented_refresh stored db now grace_seconds =
      if not stored.revoked
      then some stored
      else if past_grace stored now grace_seconds
      then none
      else follow max_successor_hops db now stored

  abbrev rejected : AuthDb T → HttpError → Answer T
  rejected db e = record { reply = err e; db = db; redis = [] }

  unfoldable pub kill_family_on_reuse :
      RefreshSettings → RefreshInput → RefreshToken → AuthDb T → AuthDb T × List RedisCommand
  kill_family_on_reuse settings input stored db =
      let db1 = revoke_family T stored.family_id db in
      let subject_id : Text = elim (get_session T db1 stored.session_id) [
        | none ↦ []
        | some s ↦ s.user_id
      ] in
      let (db2, was_live) = revoke_session T stored.session_id db1 in
      let event =
        refresh_reuse_detected subject_id stored.session_id stored.family_id input.ip
          input.user_agent in
      (
        enqueue T event db2,
        (if was_live
            then revoke_sid stored.session_id settings.access_token_ttl_seconds ∷ []
            else []),
      )

  module _ (hash_refresh_secret : Text → Text) (settings : RefreshSettings)
      (input : RefreshInput) where
    -- The rotation itself, up to the `commit`.
    unfoldable pub rotate : RefreshToken → Session → User → AuthDb T → Answer T
    rotate stored login_session user db =
        let db1 = mark_rotated T stored.jti input.next_jti input.now db in
        let db2 =
          create_token T input.next_jti stored.family_id login_session.id
            (hash_refresh_secret input.next_secret)
            (input.now + seconds settings.refresh_token_ttl_seconds) (some stored.jti) input.now
            db1 in
        let event =
          token_refreshed user.id login_session.id stored.family_id input.ip input.user_agent in
        record {
          reply = ok (record {
            user_id = user.id;
            username = user.username;
            roles = user.roles;
            session_id = login_session.id;
            refresh_token = build_refresh_token input.next_jti input.next_secret;
          });
          db = enqueue T event db2;
          redis = [];
        }

    -- The handler from the point where a usable token is known.
    unfoldable pub refresh_usable : RefreshToken → AuthDb T → Answer T
    refresh_usable stored db =
        if leb stored.expires_at input.now
        then rejected db session_invalid
        else elim (get_session T db stored.session_id) [
          | none ↦ rejected db session_invalid
          | some login_session ↦
              if login_session.revoked
              then rejected db session_invalid
              else elim (get_user T db login_session.user_id) [
                | none ↦ rejected db session_invalid
                | some user ↦
                    if not user.is_active
                    then rejected db account_disabled
                    else rotate stored login_session user
                        (touch_session T login_session.id input.now db)
              ]
        ]

    -- The handler from the point where the presented token is known.
    unfoldable pub refresh_stored : RefreshToken → AuthDb T → Answer T
    refresh_stored stored db =
        elim (resolve_presented_refresh stored db input.now
          settings.refresh_rotation_grace_seconds) [
            | some usable ↦ refresh_usable usable db
            | none ↦ elim stored.rotated_at [
              | none ↦ rejected db session_invalid
              | some _ ↦
                  let (db', redis) = kill_family_on_reuse settings input stored db in
                  record { reply = err session_invalid; db = db'; redis = redis }
            ]
          ]

    -- The handler itself.
    unfoldable pub refresh_body : AuthDb T → Answer T
    refresh_body db = elim input.cookie [
      | none ↦ rejected db session_invalid
      | some raw ↦ elim (split_refresh_token raw) [
        | none ↦ rejected db session_invalid
        | some (jti, secret) ↦ elim (get_by_jti_and_hash T db jti (hash_refresh_secret secret)) [
          | none ↦ rejected db session_invalid
          | some stored ↦ refresh_stored stored db
        ]
      ]
    ]

    -- The route, whose dependency is `csrf_protect`.
    unfoldable pub refresh : AuthDb T → Answer T
    refresh db = elim (csrf_protect input.csrf_cookie input.csrf_header) [
      | err e ↦ rejected db e
      | ok _ ↦ refresh_body db
    ]
