-- ===== src/Lib.antt =====
-- A verification library for nestjs-yalc. It models the auth package, which is the identity directory
-- of auth/src/directory, that links external identities to accounts, and the sessions of
-- auth/src/core; the health package, health/src, which watches checks and tells of incidents;
-- and the batches of the data loader, data-loader/src.
--
-- The parts and their files.
--   Directory/Errors, Directory/Types: directory-errors.ts and directory-types.ts. A DirectoryError
--     is `Fault.fresh`, one that is marked as a confirmed abort is `Fault.aborted`, and a TypeError of
--     the platform is `Fault.type_error`. The `_json` functions are the fields of the records in
--     the source's names.
--   Directory/Validation: directory-validation.ts. Scalars has text, account, integer, id and the
--     others of single values; Shapes has data, array, snapshot and bytes; Inputs has identity,
--     profile, binding, proof, sessionUse, horizon and quote; Rows has the stored rows; Config has
--     config.
--   Directory/Host: DirectoryOptions, DirectoryStore and DirectoryTx of directory-types.ts, a
--     parameter of all that follows.
--   Directory/Exec: the closure of createIdentityDirectory in directory-core.ts, which is its fence,
--     the last accepted time and the number of running commands, with the world of the ports beside
--     it; and the ways to build an action on it.
--   Directory/Atomic: `atomic`, the run of one store transaction and what is believed of its answer.
--   Directory/Reads: storedIdentity, storedLink, revision, storedCommand, links, actorRow.
--   Directory/Guards: time, route, authorize, session, guard, freshProof, approval, consent.
--   Directory/Preflight: the intent of a command, its digest, assertReceipt and preflight.
--   Directory/Mutate: mutate, replay, requireOtherMethod, draw, sized, terminal.
--   Directory/Facade: write, link, unlink, provision, resolveIdentity, list, reconcile and
--     assertCurrentLink.
--   Core: auth/src/core. Core/Errors, Core/Types and Core/Validation are auth-errors.ts, auth-types.ts
--     and auth-validation.ts, but for validateConfig, which is in Core/Config. Core/Inputs reads the
--     inputs and Core/Host is what the options give. Core/Exec has the ways to build a call, and
--     Core/Sessions the functions of createAuthCore in auth-core.ts: draw, time, atomic, writeEvent,
--     checkCsrf and checkedSession, with login, authenticate, refresh, logout and revokeAll in a child
--     each.
--   Health/Checks: initialCheckState and transitionCheck of health/src/state-machine.ts.
--   Health/Scheduler: ProbeScheduler and withDeadline of health/src/scheduler.ts.
--   Health/Monitor: OutboxNotifier and HealthMonitorService of health/src/monitor.ts, with the rows
--     that they store of entities.ts.
--   DataLoader: data-loader/src/dataloader.helper.ts, the batch function of _DataLoaderWithCount, and
--     getDataloader, in Cache, loadOne and loadOneToMany of GQLDataLoader.
--   Js: the values of JavaScript that validators inspect, JSON texts, and base64url.
--   Prelude: shared names, Boolean tests on numbers, lists.
-- An operation of the facade validates its input, proves the actor by Guards, builds an intent and
-- runs it by `mutate` inside `write`; `mutate` plans in one transaction of Atomic, reserves capacity
-- at a port, checks again, writes in a second transaction and settles or releases the reservation.
--
-- The data loader calls a query that is a parameter, with what all objects inherit as another.
-- The operations of Core read their input and the clock and then do all their work in one transaction
-- of the store, through methods that turn what they throw into storage_unavailable. The monitor asks
-- Checks for the change that a result of a probe makes, and saves it in one transaction.
--
-- How state is modelled. In Directory, an action takes a closure and returns a result, or the fault
-- that was thrown, with the closure after it. A port is a function of the world to an answer, or to none if it
-- throws, and a new world; nothing is assumed of it. A store transaction is a tree: it resolves,
-- throws, or invokes the callback in some world and goes on by its outcome, any number of times. The
-- theorems on a call name the closures between its steps, and the transaction that the host gives in
-- the world of the call.
-- The hash SHA-256 is a function parameter. Promise.all runs its promises in the order of the list.
-- In Core and in the monitor there is no state but the world, so a call takes a world and returns a
-- result with the world after it. The transaction of Core is any function of its work; a theorem that
-- needs it is given what the store does about the work (Store: the methods that it gets, the world in
-- which it begins, the world to which it is committed) and supposes that a transaction that returns ran
-- its work with these methods, begun in that world, returns what the work returned, and ends in the
-- world to which it is committed (IsTransaction). The theorem on reused tokens supposes that a store
-- keeps a session that it answers to have saved, until it saves another (Keeps). The repositories of the monitor, its
-- transaction, the redaction of texts and the parser of URLs are parameters, too. A probe is cut at its
-- await: its beginning and its end are two steps, and which of the probe and its timer ends first is
-- a parameter, as is the offset that the scheduler computes from a random number.
--
-- Bounds. A number is a natural number, a negative one or no integer; the validators hold accepted
-- ones to 2^53 - 1, and sums are tested against that bound as the code does. `snapshot` bounds its
-- depth as the code does; no other fuel decides an outcome: the one in the print of decimals is the
-- number itself, which has more than enough. Times of sessions and of checks are natural numbers, and so
-- are the numbers of a stored session, since the store answers records of its type.
--
-- Not modelled. One command runs at a time: interleavings of commands at their awaits are left out,
-- so the count of running commands matters only to a command that is begun while others are counted.
-- Of an object, its own properties and its prototype are modelled, getters as a kind of property that
-- the validators refuse; a value whose reflection throws is refused too.
-- Of the health package, the probes, which use the network and files, and the redaction are left
-- out; of the data loader, the package that calls the batch, the count, the events and the factory.
-- The other packages of the repository are not modelled.
pub mod Prelude
pub mod Js
pub mod Directory
pub mod Health
pub mod Core
pub mod DataLoader
