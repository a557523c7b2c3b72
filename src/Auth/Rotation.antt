-- ===== src/Auth/Rotation.antt =====
-- Rotation of refresh tokens, services/auth/app/api/v1/auth.py: who gets a token, how many live
-- tokens a family has, and what the reuse of a token does.
pub mod Live
pub mod Reuse
use theft_detection_platform.Prelude.{
  ℕ, zero, suc, ◌<◌, ◌≡◌, ◌↔◌, ap, ◌∙◌, subst, ◌&&◌, Result-cases, refl, Bool, true, false, not,
  Option, none, some, List, [], ◌∷◌, arith, ltb, leb, inl, inr, Option-cases, Bool-cases, Result,
  ok, err, is_some, ltb→lt,
}
use theft_detection_platform.Auth.Records.{
  Text, RefreshToken, Session, User, Tables, AuthDb, HttpError,
}
use theft_detection_platform.Auth.Repositories.{
  get_by_jti, get_session, get_user, get_by_jti_and_hash, touch_session,
}
use theft_detection_platform.Auth.Refresh.{
  RefreshSettings, RefreshInput, Issued, Answer, follow, past_grace, max_successor_hops,
  csrf_protect, build_refresh_token, refresh_body, resolve_presented_refresh, rotate,
  refresh_usable, refresh_stored, refresh, split_refresh_token,
}

module _ (T : Tables) where
  -- A successor that the loop returns is live.
  follow_live :
      (hops : ℕ) (db : AuthDb T) (now : ℕ) (cursor : RefreshToken) {u : RefreshToken}
      → follow T hops db now cursor ≡ some u
      → u.revoked ≡ false
  unfolding follow
  follow_live zero db now cursor {u} h = absurd (ground arith)
  follow_live (suc hops) db now cursor {u} h = elim (Option-cases cursor.replaced_by) [
    | inl none_ ↦ absurd (ground arith)
    | inr (next, linked) ↦ elim (Option-cases (get_by_jti T db next)) [
      | inl missing ↦ absurd (ground arith)
      | inr (candidate, found) ↦ ground (arith, follow_live hops db now candidate {u = u})
    ]
  ]

  pub resolve_live :
      (stored : RefreshToken) (db : AuthDb T) (now grace : ℕ) {u : RefreshToken}
      → resolve_presented_refresh T stored db now grace ≡ some u
      → u.revoked ≡ false
  unfolding resolve_presented_refresh
  resolve_live stored db now grace {u} h = ground (arith, follow_live 3 db now stored {u = u})

  -- Of the successors that a token leads to, the first that is live and has not expired, at most
  -- `hops` steps away.
  pub data Succeeds (db : AuthDb T) (now : ℕ) : ℕ → RefreshToken → RefreshToken → Type 0 where
    nearest :
        {hops : ℕ} {t u : RefreshToken} (jti : Text)
        → t.replaced_by ≡ some jti
        → get_by_jti T db jti ≡ some u
        → u.revoked ≡ false
        → now < u.expires_at
        → Succeeds db now (suc hops) t u
    behind :
        {hops : ℕ} {t u v : RefreshToken} (jti : Text)
        → t.replaced_by ≡ some jti
        → get_by_jti T db jti ≡ some u
        → (not u.revoked && ltb now u.expires_at) ≡ false
        → Succeeds db now hops u v
        → Succeeds db now (suc hops) t v

  follow-Succeeds :
      (hops : ℕ) (db : AuthDb T) (now : ℕ) (cursor : RefreshToken) {u : RefreshToken}
      → follow T hops db now cursor ≡ some u
      → Succeeds db now hops cursor u
  unfolding follow
  follow-Succeeds zero db now cursor {u} h = absurd (ground arith)
  follow-Succeeds (suc hops) db now cursor {u} h = elim (Option-cases cursor.replaced_by) [
    | inl last ↦ absurd (ground arith)
    | inr (jti, linked) ↦ elim (Option-cases (get_by_jti T db jti)) [
      | inl missing ↦ absurd (ground arith)
      | inr (candidate, found) ↦
          elim (Bool-cases (not candidate.revoked && ltb now candidate.expires_at)) [
            | inl usable ↦
                let same : candidate ≡ u = ground arith in
                nearest jti linked (found ∙ ap some same) (ground arith) (ground arith)
            | inr dead ↦
                behind jti linked found dead (follow-Succeeds hops db now candidate (ground arith))
          ]
    ]
  ]

  succeeds-follow :
      {db : AuthDb T} {now hops : ℕ} {cursor u : RefreshToken}
      → Succeeds db now hops cursor u
      → follow T hops db now cursor ≡ some u
  unfolding follow
  succeeds-follow (nearest jti linked found live fresh) = ground arith
  succeeds-follow (behind jti linked found dead rest) = ground (arith, succeeds-follow rest)

  -- The token that a presented one stands for: itself while it is live, and its successor within
  -- the grace.
  pub data StandsFor (db : AuthDb T) (now grace : ℕ) : RefreshToken → RefreshToken → Type 0 where
    itself : {t : RefreshToken} → t.revoked ≡ false → StandsFor db now grace t t
    successor :
        {t u : RefreshToken}
        → t.revoked ≡ true
        → past_grace t now grace ≡ false
        → Succeeds db now max_successor_hops t u
        → StandsFor db now grace t u

  resolve-StandsFor :
      (stored : RefreshToken) (db : AuthDb T) (now grace : ℕ) {u : RefreshToken}
      → resolve_presented_refresh T stored db now grace ≡ some u
      → StandsFor db now grace stored u
  unfolding resolve_presented_refresh
  resolve-StandsFor stored db now grace {u} h = elim (Bool-cases stored.revoked) [
    | inr live ↦
        let same : stored ≡ u = ground arith in
        subst (StandsFor db now grace stored) same (itself live)
    | inl rotated_ ↦
        successor rotated_ (ground arith) (follow-Succeeds 3 db now stored (ground arith))
  ]

  stands_for-resolve :
      {db : AuthDb T} {now grace : ℕ} {stored u : RefreshToken}
      → StandsFor db now grace stored u
      → resolve_presented_refresh T stored db now grace ≡ some u
  unfolding resolve_presented_refresh
  stands_for-resolve (itself live) = ground arith
  stands_for-resolve (successor rotated_ within chain) = ground (arith, succeeds-follow chain)

  module _ (hash_refresh_secret : Text → Text) (settings : RefreshSettings)
      (input : RefreshInput) where
    -- What a successful answer rests on: CSRF tokens that agree; a cookie whose name and secret are
    -- those of a token of the database, which stands for a token that is live and has not expired;
    -- that token's session, not revoked, and its user, active. The answer is for them.
    pub record IsAuthorised (db : AuthDb T) (issued : Issued) : Type 0 where
      pub raw : Text
      pub jti : Text
      pub secret : Text
      pub presented : RefreshToken
      pub token : RefreshToken
      pub session : Session
      pub user : User
      pub protected : csrf_protect input.csrf_cookie input.csrf_header ≡ ok tt
      pub sent : input.cookie ≡ some raw
      pub parts : split_refresh_token raw ≡ some (jti, secret)
      pub known : get_by_jti_and_hash T db jti (hash_refresh_secret secret) ≡ some presented
      pub stands_for :
          StandsFor db input.now settings.refresh_rotation_grace_seconds presented token
      pub token_live : token.revoked ≡ false
      pub token_fresh : input.now < token.expires_at
      pub session_found : get_session T db token.session_id ≡ some session
      pub session_live : session.revoked ≡ false
      pub user_found : get_user T db session.user_id ≡ some user
      pub user_active : user.is_active ≡ true
      pub answer : issued ≡ record {
        user_id = user.id;
        username = user.username;
        roles = user.roles;
        session_id = session.id;
        refresh_token = build_refresh_token input.next_jti input.next_secret;
      }

    usable_reply :
        (usable : RefreshToken) (db : AuthDb T) {issued : Issued}
        → (refresh_usable T hash_refresh_secret settings input usable db).reply ≡ ok issued
        → (session : Session) × (user : User) × (input.now < usable.expires_at)
          × (get_session T db usable.session_id ≡ some session)
          × (session.revoked ≡ false)
          × (get_user T db session.user_id ≡ some user)
          × (user.is_active ≡ true)
          × (issued ≡ record {
            user_id = user.id;
            username = user.username;
            roles = user.roles;
            session_id = session.id;
            refresh_token = build_refresh_token input.next_jti input.next_secret;
          })
    unfolding refresh_usable rotate
    usable_reply usable db h = elim (Option-cases (get_session T db usable.session_id)) [
      | inl missing ↦ absurd (ground arith)
      | inr (s, found) ↦ elim (Option-cases (get_user T db s.user_id)) [
        | inl missing ↦ absurd (ground arith)
        | inr (u, known) ↦
            (s, u, ground arith, found, ground arith, known, ground arith, ground arith)
      ]
    ]

    stored-IsAuthorised :
        (db : AuthDb T) {raw jti secret : Text} {stored usable : RefreshToken} {issued : Issued}
        → csrf_protect input.csrf_cookie input.csrf_header ≡ ok tt
        → input.cookie ≡ some raw
        → split_refresh_token raw ≡ some (jti, secret)
        → get_by_jti_and_hash T db jti (hash_refresh_secret secret) ≡ some stored
        → resolve_presented_refresh T stored db input.now settings.refresh_rotation_grace_seconds
          ≡ some usable
        → (refresh_usable T hash_refresh_secret settings input usable db).reply ≡ ok issued
        → IsAuthorised db issued
    stored-IsAuthorised db {raw} {jti} {secret} {stored} {usable} protected sent parts known
          resolved h =
        let grace = settings.refresh_rotation_grace_seconds in
        let (s, u, fresh, found, open_, named, active, answer) = usable_reply usable db h in
        record {
          raw = raw;
          jti = jti;
          secret = secret;
          presented = stored;
          token = usable;
          session = s;
          user = u;
          protected = protected;
          sent = sent;
          parts = parts;
          known = known;
          stands_for = resolve-StandsFor stored db input.now grace resolved;
          token_live = resolve_live stored db input.now grace resolved;
          token_fresh = fresh;
          session_found = found;
          session_live = open_;
          user_found = named;
          user_active = active;
          answer = answer;
        }

    answered-IsAuthorised :
        (db : AuthDb T) {issued : Issued}
        → (refresh T hash_refresh_secret settings input db).reply ≡ ok issued
        → IsAuthorised db issued
    unfolding refresh refresh_body refresh_stored
    answered-IsAuthorised db h =
        elim (Result-cases (csrf_protect input.csrf_cookie input.csrf_header)) [
          | inr (e, refused) ↦ absurd (ground arith)
          | inl (done, protected) ↦ elim (Option-cases input.cookie) [
            | inl missing ↦ absurd (ground arith)
            | inr (raw, sent) ↦ elim (Option-cases (split_refresh_token raw)) [
              | inl malformed ↦ absurd (ground arith)
              | inr ((jti, secret), parts) ↦
                  elim (Option-cases (get_by_jti_and_hash T db jti (hash_refresh_secret secret))) [
                    | inl unknown ↦ absurd (ground arith)
                    | inr (stored, found) ↦
                        elim (Option-cases (
                          resolve_presented_refresh T stored db input.now
                            settings.refresh_rotation_grace_seconds)) [
                              | inl dead ↦ absurd (ground arith)
                              | inr (usable, resolved) ↦
                                  stored-IsAuthorised db protected sent parts found resolved
                                    (ground arith)
                            ]
                  ]
            ]
          ]
        ]

    authorised_usable :
        (db : AuthDb T) {issued : Issued} (a : IsAuthorised db issued)
        → (refresh_usable T hash_refresh_secret settings input a.token db).reply ≡ ok issued
    unfolding refresh_usable rotate
    authorised_usable db a = ground (
      arith, a.token_fresh, a.session_found, a.session_live, a.user_found, a.user_active, a.answer,
    )

    authorised_answered :
        (db : AuthDb T) {issued : Issued}
        → IsAuthorised db issued
        → (refresh T hash_refresh_secret settings input db).reply ≡ ok issued
    unfolding refresh refresh_body refresh_stored
    authorised_answered db a = ground (
      arith,
      a.protected,
      a.sent,
      a.parts,
      a.known,
      stands_for-resolve a.stands_for,
      authorised_usable db a,
    )

    -- A refresh request is answered with tokens exactly if it is authorised, and then with those of
    -- its user and session.
    pub refresh-IsAuthorised :
        (db : AuthDb T) (issued : Issued)
        → ((refresh T hash_refresh_secret settings input db).reply ≡ ok issued)
          ↔ IsAuthorised db issued
    refresh-IsAuthorised db issued = (answered-IsAuthorised db, authorised_answered db)
