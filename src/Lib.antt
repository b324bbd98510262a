-- ===== src/Lib.antt =====
-- Nebula VPN: the accounting, access-control, sign-in, agent and mail-queue logic of the control
-- plane and its servers.
--
-- The control plane (services/api) keeps accounts, devices and credentials in a database, polls
-- the VPN servers for traffic counters and takes credentials away when an allowance is spent or
-- access has lapsed. An agent on each server (services/vpn-agent) carries out operations and
-- remembers them by idempotency key. A worker (services/worker) delivers mail from a table of the
-- same database. The audit trail is exported as a chain of hashes. Users sign in with sessions in
-- the database, whose refresh tokens rotate; administrators' sessions, rate limits and lockouts
-- are kept in Redis. The parts meet in the database's rows, and in the agent's ledger file.
--
-- Files and the code they model:
--   * Db: the tables of services/api/src/nebula_api/models (User, Device, WireGuardPeer and
--     XrayClient as VpnCredential, DeviceProtocolCredential, UserServerAssignment,
--     UserProtocolPermission, AuditLog), with the columns that the modelled operations use.
--   * Usage.Ledger: services/api/src/nebula_api/usage/service.py, UsageLedger (record is
--     record_samples, _apply is apply, forget_readings). Usage.Ledger.View and Totals hold its
--     lemmas; Process puts it beside a process that serves traffic, restarts and answers readings,
--     which may overlap (Readings and Overcounts); Exact is about readings that do not.
--   * Usage.Counters: usage/counters.py, keep_counters_across, _after_change, _read and _write
--     over an environment that answers each read and each write.
--   * Usage.Account: AccountUsage, usage_for_user and _digests_for_devices of usage/service.py.
--   * Usage.Activity: the loop of activity_for_devices of usage/service.py.
--     Provisioning.Allocator: allocate_next_address of provisioning/allocator.py.
--   * Usage.Quota: grant_traffic_quota of usage/quota.py. Usage.Enforcement:
--     enforce_traffic_quotas and _cut_off of usage/enforcement.py.
--   * Access.Revocation: provisioning/revocation.py. Access.Expiry: access/expiry.py.
--   * Agent.Ledger: services/vpn-agent/src/nebula_agent/ledger.py, OperationLedger.
--     Agent.Dispatch: dispatch_ledgered of api/_dispatch.py.
--   * Agent.WireGuard: services/vpn-agent/src/nebula_agent/drivers/config_store.py, a text being
--     the list of its lines, each with its name as a text and its value as what it is the text of;
--     Agent.WireGuard.Driver: NativeWireGuardDriver of drivers/wireguard.py, where the ends of
--     each run of wg are arguments. Agent.WireGuard.Refines states the driver's contract, a map
--     from keys to peers.
--   * Worker.Poller: services/worker/src/nebula_worker/poller.py, the claiming of deliveries and
--     of expired leases; Worker.Poller.Delivery: deliver_one, _finalize and poll_once.
--   * Audit.Chain: services/api/src/nebula_api/audit/chain.py, chain_lines, verify and
--     verify_extends.
--   * Auth.Redis: what services/api/src/nebula_api/auth/redis_state.py uses of Redis, as an
--     interface with laws (reading after a write, a deletion and the passing of time), its
--     commands PEXPIRE and HSET over it, and the ends of a call; Auth.Redis.Keyed is one
--     implementation. Auth.RateLimit, Auth.Lockout, Auth.Challenges and Auth.Sessions (with
--     Auth.Sessions.Methods): the Lua scripts and the methods of RedisAuthState, over that
--     interface.
--   * Auth.OpaqueTokens: auth/opaque_tokens.py, over base64 and the HMAC as parameters.
--   * Auth.Users: the session and token tables of models/identity.py and the tests of eligibility
--     of auth/user_service.py; Auth.Users.Revoke: auth/session_revocation.py; Auth.Users.Refresh:
--     refresh, logout and _load_principal; Auth.Users.Passwords: confirm_password_reset and
--     change_password; Auth.Users.Devices: _resolve_device, _reuse_by_hardware and
--     _backfill_hardware, with auth/device_identity.py; Auth.Users.Login: login. Auth.Users.Runs
--     puts the operations in any order, and Auth.Users.Changes reduces each to a few changes of
--     the two tables.
--   * Prelude: Boolean tests, lists over the native numbers, and the library names that the other
--     modules share. The modules called Tests, and those whose name ends so, hold small inputs and
--     the theorems at them.
--
-- How the code is modelled. A table is a list of rows, a query with its loop a walk over the list
-- in table order, and a transaction a function from the tables to the tables; transactions run one
-- after the other, as the row locks make them. Identifiers, keys, texts and times that the code
-- only compares or adds to are natural numbers; counters are natural numbers without the bound of
-- a BIGINT column. A fallible step returns an option or a type of outcomes. SHA-256, the
-- decryption of credentials and the reading and writing of JSON by the response models are
-- parameters; so are the hash that links two lines of an audit export and the HMAC of a token.
-- Redis is the parameter of the modules that use it, by its documented laws; its clock and the
-- service's move together where a theorem lets time pass. A call to Redis is answered, never
-- arrives, or runs and loses its answer; where a statement speaks of a single method's reply, the
-- call is answered. Fresh ids and random tokens are arguments.
--
-- Bounds. The one loop that the code bounds, the six reads after a change, is recursion on the
-- five that are left after the first. The agent's ledger keeps as many entries as its settings
-- allow; the poller's batch and attempts are those of its settings.
--
-- Not modelled: the refusal of the database in the poller's claiming statements, concurrent
-- transactions, the texts of the mails, the audit events' actor and request columns, and the mail
-- address in the result of a grant; the two operations of auth/redis_state.py that scan all keys;
-- the lookup of a user by mail address or name at sign-in, the request of a password reset, the
-- deletion of an account, and the name, platform and version of a device; the rest of the control
-- plane (administrators, provisioning, reconciliation, topology, retention), the agent's other
-- drivers, the splitting of a WireGuard configuration into lines and of a line at its =, the texts
-- of its keys, numbers and addresses, and failures of its file system, and the clients.
pub mod Prelude
pub mod Db
pub mod Access
pub mod Usage
pub mod Agent
pub mod Worker
pub mod Audit
pub mod Provisioning
pub mod Auth
