-- ===== src/Lib.antt =====
-- The access-control platform of backend/app: what its services promise, and proofs that they keep it.
--
-- The program is a FastAPI server over a relational database. Operators open doors and change cards;
-- a local bridge, a process beside the boards, fetches commands from an outbox, sends them to the
-- boards in 64-byte packets, and reports how they ended; critical doors need the word of two people;
-- sessions are kept by rotating refresh tokens. The files follow its parts:
--   Prelude       shared tests, lists, error results, and tables with SELECT, UPDATE and row counts
--   Models        backend/app/models/: the rows and enumerations
--   Protocol      backend/app/services/protocol/: Frames is frames.py, Codec is codec.py, Bytes the
--                 `struct` and `bytes` operations that both use
--   Events        backend/app/services/events.py: record_event
--   Outbox        backend/app/services/gateway_outbox.py: enqueue, claim, acknowledge
--   DualApproval  backend/app/services/dual_approval.py: create_request, claim_for_approval,
--                 mark_failed, reject
--   Effects       backend/app/services/gateway_effects.py: apply_outcome and its two branches
--   Bridge        backend/app/api/v1/gateway_bridge.py: get_current_bridge, claim_commands,
--                 acknowledge_command, with get_or_404 (api/helpers.py) and verify_secret
--                 (core/security.py)
--   Sessions      backend/app/services/sessions.py: every operation but the reading of the request;
--                 Sessions/Rotation is issue_tokens and rotate_refresh
--   Access        backend/app/services/access_engine.py and wiegand.py: Access/Decision is
--                 evaluate_access, Access/Swipe process_swipe and mask_card (core/masking.py)
--   Login         backend/app/api/v1/auth.py: login and the lock-out, with consume (mfa_recovery.py) and
--                 verify_code (core/totp.py)
--   Mfa           backend/app/api/v1/auth.py: the /mfa endpoints, with generate of mfa_recovery.py
--   Account       backend/app/api/v1/auth.py: refresh, logout and change_password, and record_audit of
--                 services/audit.py
--   Users         backend/app/api/v1/users.py, and update_organization of organizations.py
--   Monitor       ConnectionManager of backend/app/services/events.py; Monitor/Bus is
--                 services/revocation_bus.py, Monitor/Socket api/v1/ws.py
--   Guards        backend/app/core/deps.py: get_current_user, require_roles, get_org_id
--   RateLimit     backend/app/core/ratelimit.py: allow of both limiters, and the sweep
--   Inbox         backend/app/services/gateway_inbox.py: ingest_events, and its endpoint in
--                 api/v1/gateway_bridge.py
--   Api           backend/app/api/v1/: Api/Doors is doors.py but its listings, Api/Credentials the
--                 credentials of cardholders.py and Api/People its cardholders, Api/Controllers
--                 ping and sync-time of controllers.py and Api/Permissions its sync-permissions,
--                 Api/Dispatch services/command_dispatch.py, and Api/Desk what the door handlers
--                 read and write
--   Attendance    backend/app/services/attendance.py: compute_attendance and _evaluate_day;
--                 Attendance/Desk is api/v1/attendance.py
--   Web           backend/app/core/: Web/Csrf is csrf.py, Web/Startup the check of config.py on the
--                 settings of a production server
--   Importer      backend/app/services/importer.py: the loop of _build_plan, _apply, and the dry run
-- Bridge calls Outbox and, when a command becomes terminal, Effects; Effects resolves the requests of
-- DualApproval and records Events, as Access does for a swipe and Inbox for what boards report.
-- Account and Users revoke sessions in Sessions and close the sockets of Monitor over its bus.
-- Api's handlers put DualApproval, Outbox, Effects and Bridge together. Tests modules hold concrete runs.
--
-- Modelling. A table is the list of its rows in insertion order, and an operation takes the tables
-- and returns them with its result. What an operation wrote before it raised is returned beside the
-- error where the source leaves it written. Concurrency: PostgreSQL runs each conditional UPDATE on
-- the rows as they then stand, so an operation that reads and then writes takes the table that it
-- read (`seen`, or the row object that was loaded) apart from the one that it writes, and theorems on
-- races are over any sequence of such operations. Instants are seconds on one clock and are
-- arguments; hashes, password and TOTP checks, header normalisation, time zones and `str.isdigit` are
-- parameters; strings made by `uuid`, `secrets` and `jwt` are arguments. Python's integers are natural
-- numbers, where no caller passes a negative one; the days of a shift, which a client sends, are
-- integers.
-- The loops of the source are over lists and are structural, but for the one over the days of an
-- attendance report, which runs on fuel: its fuel is the number of the days.
--
-- Not modelled: what is sent on a socket, Redis and its threads, HTTP framing and schemas beyond their
-- `model_validator`s, the other endpoints, the reading of import files, the UDP drivers, the audit rows
-- of most endpoints, the hooks that fan events out when a transaction or a savepoint of it ends (SQLAlchemy
-- says when they run), and the database's own transactions beyond the order of single statements.
pub mod Prelude
pub mod Models
pub mod Protocol
pub mod Events
pub mod Outbox
pub mod DualApproval
pub mod Effects
pub mod Bridge
pub mod Sessions
pub mod Access
pub mod Login
pub mod Mfa
pub mod Monitor
pub mod Account
pub mod Users
pub mod Web
pub mod Guards
pub mod RateLimit
pub mod Inbox
pub mod Api
pub mod Attendance
pub mod Importer
