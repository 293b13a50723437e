-- ===== src/Lib.antt =====
-- A verification library for the server side of Karar Flutter version: the typed rules that decide what a
-- person may use and under which policy, the exact arithmetic of money, the delivery of events and jobs,
-- the sessions and invitations of users, and the migration of operating entities.
--
-- Parts and how they interact. A policy pack (packages/jurisdiction-policy) says in code what a
-- jurisdiction permits. It is validated, its life cycle says whether it may govern, and one resolution
-- turns the packs of a build and the runtime settings of a jurisdiction into an effective policy. The
-- capability module (modules/capability) resolves one capability by eight gates over facts: the
-- descriptor, the environment, the jurisdiction's ceiling (which comes from such a policy and from the
-- jurisdiction assignment of modules/jurisdiction), the availability row, the tenant's entitlement,
-- consent, licences and providers. Elections of a subject (modules/subject-policy) are read by instant.
-- Money (packages/shared-kernel) is used by every module that counts. The outbox relay
-- (packages/platform) publishes the events that transactions have written, and its job queue and poller
-- run what the server is asked to do later. Identity keeps the sessions of accounts and the refresh tokens
-- that prolong them, and binds a session to a tenant; tenancy makes an invited user a member of one. The
-- operating entity of a tenant or a user changes by a migration only, a workflow with its own table.
--
-- Files, and the code that they model:
--   Capability (AvailabilityState, DenialReason, Entitlement, Facts, Gates, Resolution, ClientView):
--     modules/capability/domain: isAllowingState, clientReasonFor, entitlementSatisfiesAt,
--     resolveCapabilityGates with its gates in order, toClientView. A gate is a function of the facts
--     into a verdict, and the gates are composed in the order of the code.
--   Policy.Decision, Policy.Pack: packages/jurisdiction-policy/src, decision.ts, environment.ts and
--     policy-pack.ts. Policy.Lifecycle: lifecycle.ts, canActivate and canResolveExplicitVersion.
--     Policy.Validation: validation.ts, validatePack and validatePackSet. Policy.Strategies:
--     resolution/strategies.ts. Policy.Query and Policy.Effective: resolution/effective-policy.ts, the
--     input and the answer, and resolveEffectivePolicy.
--   Kernel.IntegerMath, Kernel.Money, Kernel.Rates: packages/shared-kernel/src, divideRounded, Money,
--     Percentage and ExchangeRate.
--   Jurisdiction.Assignment: modules/jurisdiction/domain/assignment.ts.
--   SubjectPolicy.Selection: modules/subject-policy/domain, selection.ts and option-set.ts.
--   Outbox.Relay: packages/platform/src/outbox/relay.ts, one function for each statement on the table
--     and for the run that composes them.
--   Jobs: packages/platform/src/jobs and the constraints of db/migrations/0021_jobs.sql. Row: the row
--     and the values of queue.ts. Queue and Lease: postgres-queue.ts, the statements that add and claim,
--     and those of the holder of a lease. Poller: registry.ts and poller.ts, executeOne and runOnce.
--     Steps: the interleaved steps of workers that share the table.
--   Identity: modules/identity. Session: domain/session.ts and application/session-issuer.ts. Store:
--     infrastructure/persistence/prisma-session-store.ts, one function for each transaction, over the
--     tables of packages/platform/db/migrations/0031_identity_sessions.sql. Refresh, Binding and
--     Lifecycle: the use cases refresh-session.ts, session-tenant-binding.ts and session-lifecycle.ts.
--     Steps: the interleaved transactions of requests.
--   Tenancy.Invitation: modules/tenancy, evaluateRedeemability of domain/tenancy.ts, redeem and
--     recordFailedAttempt of the invitation repository, and the use case redeem-invitation.ts.
--   OperatingEntity: modules/operating-entity. Migration: domain/entity-migration.ts, the repository of
--     migrations and the table with its trigger. Workflow: the use cases of entity-migration.ts. Requests:
--     the requests that interleave.
--   Prelude: what these share, JavaScript's list methods, tables and the order of their rows,
--     `trim() === ''`, half-open windows, results and integers.
-- A module under a component that is named for what it proves (Sound, Sets, Grounded, Due, Spent,
-- Governing, History, Restrict, Claims, Outcomes, Budget and the like) holds lemmas and results; a
-- module Tests holds concrete runs.
--
-- How it is modelled. An instant is its number of milliseconds, a natural number. A `bigint` is an
-- integer without bound. A record keyed by strings is an association list in insertion order, and a
-- missing key is `none`. The texts of errors, findings and reasons for people are left out, where the
-- kind and its fields are kept; an error that is thrown is a value. Every loop is a recursion on the
-- list that it runs over, so no fuel is needed. The publisher of the relay is a parameter, any
-- function from an envelope to an error or none; so are the instants of the statements and the points
-- at which a shutdown is seen. So are the handlers of jobs, told by what they throw, what others do to
-- the table of jobs while a handler runs, the order of uuids, the rows that another transaction has
-- locked, the digests and signatures of tokens, whether the security ledger and the audit trail take a
-- write when a session is bound, switched or revoked, what authorization answers, whether the database
-- and the audit trail of a workflow answer, and what other requests do to the sessions between a read
-- and a transaction. The table of the relay is the list of its rows in the order of the statement that
-- claims, and a statement is one atomic step, which is what its row locks give.
--
-- Not modelled: reading and printing of amounts and percentages as text; the timer, heartbeat, metrics
-- and logs of the relay and of the poller; ports, repositories and controllers; accounts, passwords and
-- the second factor of identity; the rest of tenancy; the registers of operating entities; the other
-- modules of the server (authorization, audit, consent, control plane); the applications and the mobile
-- client. They are input and output, third-party clients, or left for later.
pub mod Prelude
pub mod Capability
pub mod Policy
pub mod Kernel
pub mod Jurisdiction
pub mod SubjectPolicy
pub mod Outbox
pub mod Jobs
pub mod Identity
pub mod Tenancy
pub mod OperatingEntity
