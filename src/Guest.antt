-- ===== src/Guest.antt =====
-- src/modules/reservations/services/guest-reservation.service.ts: reservations of customers who
-- have no account.
pub mod Items
pub mod Capacity
pub mod Approval
pub mod Cancel
pub mod Cleanup
