-- ===== src/Lib.antt =====
-- A verification library for the core of a property-management system with a channel manager: the
-- values that calendars and bookings are made of, the encoding and the push of availability, rates
-- and restrictions (ARI) to a channel provider, and the rules of the domains around them.
--
-- Parts, and the files that model them (paths from the repository's root):
-- - Prelude: tests on numbers, lists, signed integers, insertion-ordered maps, sorting.
-- - Shared: packages/core/src/shared. Date and DateRange for local-date.ts and date-range.ts, Money
--   for money.ts (Money/Allocate for allocate), Result for result.ts. A date is its ordinal day;
--   Temporal does the calendar, and the weekday of a day is a parameter (`weekday_of`) wherever it
--   is used.
-- - Inventory: packages/core/src/inventory. The cells, entries and states of ari.ts and ports.ts,
--   computeAvailable (Inventory/Availability) and derive.ts (Inventory/Derive).
-- - Sync: packages/sync/src. Dates, Encode and Build for batch/dates.ts, encode.ts and build.ts,
--   Apply and Diff for batch/apply.ts, Push/Breaker for push/limiter.ts, Push/Store for
--   push/memory-store.ts, Push/Pipeline, Push/Property, Push/Verify and Push/Reference for
--   push/pipeline.ts (the push of a chunk, of a property, the read-back and the texts of missing
--   references). `buildRestrictionBatch` is `build_restriction_batch` and so on: a name is
--   the source's in snake case.
-- - Authz: packages/authz/src/evaluate.ts. Channels: packages/core/src/channels/state.ts.
--   Platform: packages/core/src/platform/lifecycle.ts. Operations: billing.ts, turnover.ts and
--   assignment.ts of packages/core/src/operations. BookingEngine: payment-rules.ts of
--   packages/core/src/booking-engine, which splits shares by Money's allocate. Messaging:
--   packages/core/src/messaging/sla.ts. Reservations, of packages/core/src/reservations:
--   projection.ts, Repository for memory-repo.ts, Ingest and Sweep for ingest.ts, and Protocol for
--   the steps that both are made of.
-- How they interact: Sync.Build groups the cells of Inventory by plan, splits their dates by
-- Sync.Dates, encodes each span by Sync.Encode and merges the entries; Sync.Apply is what a provider
-- does with the entries, and what is read from its state is compared with the cells. Sync.Push.Store
-- gives the pending cells and takes the outcomes of Sync.Push.Pipeline, which asks Sync.Push.Breaker
-- before it calls the provider. The provider is a `World`: what it answers to each call, which edits
-- of the store come in during the call and what the clock reads then.
-- Reservations.Ingest reads the feed and asks for acks through its `IngestDeps`, whose answers are
-- functions of what was done before them, and writes to Reservations.Repository.
--
-- Conventions: ids, keys and texts that the program only compares stand for their numbers, a
-- composite key for the pair of its parts, instants for their milliseconds. listUnacked compares the
-- texts of two instants, which have two formats, and `is_received_by` compares those texts, for
-- years of four digits. Amounts are signed integers; Math.round of a quotient is the exact rounding
-- of the quotient. `canon` of the encoder (JSON.stringify there) is a parameter that tells different
-- values apart. A map is an association list in insertion order. The quotient of `allocate`
-- (floating-point there) is a parameter that is exact on safe integers. An id's number orders ids as
-- the source's comparison of texts does. Classes that mutate an object pass its state on.
--
-- Bounds and rounds: a loop over dates or nights has one round for each day of its range; `chunk`
-- one for each element; the loop of `derivationChain` one more than the greatest depth, after which
-- it has ended; the feed has the source's own bound of 10,000 rounds.
--
-- Not modelled: the token bucket (floating-point rates), bulk updates, the search of offers, owners,
-- analytics, the database's repositories, jobs, providers and applications, which are input and
-- output around these parts.
pub mod Prelude
pub mod Shared
pub mod Inventory
pub mod Sync
pub mod BookingEngine
pub mod Channels
pub mod Platform
pub mod Authz
pub mod Operations
pub mod Messaging
pub mod Reservations
