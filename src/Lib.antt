-- ===== src/Lib.antt =====
-- The core of the luggage-storage server: reservations, the storages they are promised and the
-- services that change them; tokens, the staff of a store with their invitations and sessions, the
-- PIN of a store, and coupons. Paths are from the repository's root.
--
-- The parts and their files:
--   Prelude              the names that all files share: numbers, lists, options, errors
--   Prisma               what the services rely on of one table of the database client
--                        (`findFirst`, `findMany`, `updateMany`, `update`, `createMany`), as a
--                        record of operations and laws; Prisma/Listed is an implementation by lists
--   Reservation          the rows of `reservations` and `storages` (prisma/schema.prisma) and the
--                        status lists (src/modules/reservations/reservation.constants.ts)
--   Tx                   a transaction: a function from the tables to an error or to a result with
--                        new tables, over any state of tables. Tx/Ensures has a rule for each
--                        form of a step, Tx/Tables the operations on one table among several.
--                        Tx/Live is a handler that runs no transaction: each statement commits
--                        by itself
--   Status               src/modules/reservations/services/reservation-status.service.ts:
--                        `assertCanApprove`, `assertCanCheckin`, `assertCanCheckout`,
--                        `assertCanTransition`, `getAllowedNextStatuses`
--   Pricing              src/modules/reservations/pricing: `calculateTotalAmount`,
--                        `countStorageDays`, the prices and the sizes
--   ReservationStorage   src/modules/reservations/services/reservation-storage.service.ts:
--                        `findStorageForReservation`, `occupyStorageIfAny`, `releaseStorageIfAny`
--   Command              src/modules/reservations/services/reservation-command.service.ts:
--                        `createStoreReservation`, `createCustomerReservation`
--                        (Command/Create), `approveReservation`, `updateReservationStatus`, `storeCheckin`,
--                        `customerCheckout`, `setLuggageOwnerMemo`, and the like
--   Group                what the next two share: `resolveGroup` and the compare-and-swap
--   NoShow               src/modules/reservations/services/reservation-no-show.service.ts
--   OwnerActions         src/modules/owner-actions/owner-actions.service.ts
--   AutoComplete         src/modules/reservations/services/reservation-auto-complete.service.ts
--   Guest                src/modules/reservations/services/guest-reservation.service.ts:
--                        `normalizeItems` (Guest/Items), `checkCapacityBatch` (Guest/Capacity),
--                        `autoApproveGroup` (Guest/Approval), `cancelReservation` (Guest/Cancel),
--                        `cleanupExpiredReservations` (Guest/Cleanup)
--   Lifecycle            the invariant of the reservations, and how one transaction may change them
--   History              the modelled transactions as the steps of one transition system. Not among them
--                        are the creation by a guest (guest-reservation.service.ts:157-225), the
--                        update of the photos (:782 there) and the transactions of
--                        qr-checkin.service.ts (:49 and :101)
--   Token                src/modules/auth/services/token.service.ts: the generators, `toSeconds`
--                        (Token/Durations) and the checks (Token/Verification)
--   Staff                src/modules/staff/staff.service.ts: `createStaff`, `reissueInviteCode`,
--                        `revokeStaff`, `leave`; `redeem` (Staff/Redeem), the invite codes
--                        (src/modules/staff/utils/invite-code.util.ts, Staff/Codes) and the guard
--                        src/modules/auth/guards/store-auth.guard.ts (Staff/Guard). Staff/Sessions is
--                        the transition system of these operations
--   Wallet               the tables behind PINs and coupons
--   Pin                  src/modules/stores/services/store-pin.service.ts
--   Coupon               src/modules/coupons/services: customer-coupon.service.ts,
--                        guest-coupon.service.ts (Coupon/Guest), coupon-auto-issue.service.ts
--                        (Coupon/Issue). Coupon/Steps is the transition system of the statements that
--                        write coupons
--   Tests                runs on small tables, and the theorems at those tables
--
-- How they interact: a service reads and writes the tables `Db` through the client in one
-- transaction; a handler of the source that throws is a transaction that returns an error, and the
-- tables stay as they were. Statuses are checked by Status, storages are found, occupied and
-- released by ReservationStorage, groups are changed by Group. What a service asks of another one
-- after its commit (a review request, coupons) is returned as a `Message`.
--
-- A request that creates a reservation commits twice: the pending row, and then its approval. The
-- functions of Command/Create are the run with no other request in between; in History the first commit
-- is also a step of its own, so any steps may come between it and the approval.
--
-- The database's `groupBy` is a parameter whose sums are known (Guest/Capacity).
--
-- Conventions: names follow the source in snake case. A time is the number of milliseconds since the
-- epoch, a nullable column an `Option`, and a filter on a column is false where the column is NULL,
-- as in the database. The clock, the new ids and the way in which contacts are normalised are
-- arguments. Transactions run one after the other: what the database's isolation level lets two
-- concurrent transactions see of each other is not modelled. The operations of Staff read rows before
-- their transaction: there the reads and the transaction are separate steps. Those of Coupon run no
-- transaction: there each statement is a step. There is no fuel: every loop runs over a
-- list or a text.
--
-- The signing library of the tokens is a parameter (Token.Jwt), with its behaviour on signed tokens as
-- a law; the hashes of invite codes and PINs and random numbers are arguments. What the checks of tokens tell
-- apart is stated for an environment whose four secrets differ and for ids that are not empty: with one
-- secret for two kinds, a check that looks only at the type of a token accepts the other kind. The
-- order of `orderBy` is a parameter (a total and transitive relation on texts, the collation).
--
-- Not modelled: the rest of the guest service (its creation with a payment, lists, availability,
-- photos); the QR check-in; mails, messages, push, uploads, logs and HTTP; validation of the shape of requests;
-- columns that are only copied to responses; the lists and the policies of coupons; login and
-- registration, store settings, metrics, reviews and addresses; the list of staff and the extraction of a token from a
-- header.
pub mod Prelude
pub mod Prisma
pub mod Reservation
pub mod Status
pub mod Tx
pub mod Pricing
pub mod ReservationStorage
pub mod Command
pub mod Lifecycle
pub mod Group
pub mod NoShow
pub mod OwnerActions
pub mod AutoComplete
pub mod Guest
pub mod History
pub mod Token
pub mod Staff
pub mod Wallet
pub mod Pin
pub mod Coupon
pub mod Tests
