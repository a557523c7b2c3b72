-- ===== src/Lib.antt =====
-- A model of the theft detection platform's services, and what it shows of them.
--
-- The platform is a set of Python services. Cameras and detectors report to the API service
-- (services/api), the AI service (services/ai) judges, the notification service
-- (services/notification) delivers alerts to people, the auth service (services/auth) signs users
-- in, and the audit service (services/audit) keeps a tamper-evident log of what the others did.
-- This library models the audit service, the sign-in, the token rotation, the administration of
-- users and the background tasks of the auth service, the deliveries of the notification service,
-- the alerts, the idempotent requests and the migration lock of the API service, and, of the AI
-- service, the tracker that notices a concealed object and the presence of people in front of a
-- camera.
--
-- Prelude. The names that all files share; Prelude.Table is the interface of a database table,
-- Prelude.Collection that of a MongoDB collection. Prelude.Counts and Prelude.Sorting are about
-- lists of rows.
-- PostgreSQL is a parameter: a table has a list of rows in the order of their insertion, and the
-- statements have their documented effect on it. The models are functions from a database to a
-- database; a handler that raises before its commit returns the database it was given.
--
-- Audit. services/audit/app. Audit.Chain is core/chain.py (SHA-256 is a parameter), Audit.Records
-- is db/models/audit_event.py, Audit.Repository and Audit.Verify are
-- repositories/audit_repository.py, Audit.Retention is services/retention.py. `append` takes the
-- database twice: as its first look sees it, and as it stands once the advisory lock is held.
-- Audit.Checkpoint is services/checkpoint_service.py, with Ed25519 as the record `Signer`.
-- Audit.Integrity states the invariant of the log; its children hold the proofs for each writer.
--
-- Auth. services/auth/app. Auth.Records is db/models, Auth.Repositories is repositories/*.py,
-- Auth.Refresh is the route `refresh` of api/v1/auth.py with the functions that it calls, behind
-- the `csrf_protect` of core/csrf.py; `follow` is its loop over successors, which takes at most the
-- three steps of `_MAX_SUCCESSOR_HOPS`. Auth.Rotation holds the proofs. Auth.Lockout is the counter
-- of failed logins in core/redis.py, with the milliseconds that its key has to live, and Auth.Login
-- the handlers `login` and `logout`; the CSRF check before `logout` and before the requests of
-- users.py is not repeated. Auth.Authz is
-- core/authz.py. Auth.Users is api/v1/users.py less its listing: a request is handled from its first
-- read to its commit, one after another; only `delete_user` takes the database a second time, as
-- it stands once the audit service has replied. Auth.AdminEvents is services/audit_service.py.
-- Auth.Sweep is services/session_sweep.py; Auth.Drain is services/audit_drain.py with the outbox
-- repository, where a cycle claims at most the `_BATCH_SIZE` = 32 events of the source.
--
-- Notification. services/notification/app. Notification.Records is shared/schemas/delivery.py,
-- Notification.Repository is repositories/*.py over MongoDB collections that are a parameter
-- (Prelude.Collection), Notification.Worker is the delivery of worker/tasks.py and
-- Notification.Worker.Sweep its periodic tasks. What Telegram, the files, the renderer and the
-- gate answer in a run is a record of functions; the tasks that a run sends are a list.
-- Notification.DecisionToken is shared/decision_token.py, with base64, HMAC and ObjectId as the
-- record `Codec`. `release_buffered` takes the configured limit as its fuel, as the source's loop
-- does.
--
-- Api. services/api/app. Api.Alerts is schemas/alert.py, Api.Alerts.Repository is
-- repositories/alert_repository.py with base.py, Api.Alerts.UseCase and Api.Alerts.Listing are
-- usecases/alert_usecase.py. A call's messages to Redis, the audit service and the notification
-- service are a list of effects; a dispatch makes at most the three attempts of the source. The
-- cursor is the record that Api.Alerts.Listing takes, and Api.Cursor, over Api.Base64, fills it.
-- `walk` is a client that asks for one page after the other; it takes the number of its requests.
-- Api.Idempotency is core/idempotency.py; Redis is a function from keys to values, requests run
-- side by side as a list of their steps, and no key expires. Api.Migrations is the lock of
-- migrations/runner.py; the runners' calls come one after the other, by a clock that does not run
-- backwards, and each may meet a failure of MongoDB.
--
-- Ai. services/ai/app. Ai.Concealment is concealment.py: its geometry, and the tracker as a function
-- from a frame to its verdicts and the next state. The floating-point numbers and their operations
-- are a parameter. Ai.Presence is presence_servicer.py, and Ai.Presence.History the list of the
-- events that it got.
--
-- Numbers are natural; a moment is a number of microseconds (whole seconds in
-- Notification.DecisionToken and for a logout), and no clock runs backwards. The clock, random
-- names and secrets and the values that PostgreSQL assigns are arguments. A string of the auth
-- service is the list of its code points; in the other services that read into strings, the native
-- strings serve. The listing and counting of users, the audit service's query filters and gRPC
-- servicers, policies, statistics, rate limits, permissions, the versions of a migration, streams,
-- the inference, the detectors and the camera services are not modelled; the gRPC and HTTP layers,
-- configuration, metrics and logging are not, since they are input and output, or third-party code.
pub mod Prelude
pub mod Audit
pub mod Auth
pub mod Notification
pub mod Api
pub mod Ai
