-- ===== src/Tests.antt =====
-- Runs of the model on small tables, and the theorems at those tables. A storage of the store is
-- promised to the reservation `held`; `asking` meets its hours and waits for approval.
mod Samples
mod Requests
mod Examples
mod Accounts
mod AccountExamples
mod Wallets
