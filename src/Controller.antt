-- ===== src/Controller.antt =====
-- internal/controller: the reconciler.
pub mod World
pub mod Inputs
pub mod Decide
pub mod Steps
pub mod Reconcile
pub mod Runs
pub mod PreChecks
pub mod Reads
pub mod Stored
pub mod Safety
pub mod Grounds
pub mod Promises
pub mod Histories
pub mod Outages
pub mod Quiet
pub mod Carry
pub mod Scaling
pub mod Notifier
pub mod Calls
pub mod Leads
pub mod Order
pub mod Metrics
