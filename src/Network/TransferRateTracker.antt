-- ===== src/Network/TransferRateTracker.antt =====
-- src/network/tracker/TransferRateTracker.h and .cpp: the state and the helpers of one connection
-- (State), the loop over the snapshots (Rows), the statistics of processes (Aggregates), and
-- `update` itself (Updates). The clock's reading, the orders in which the loops visit the maps, and
-- the arithmetic of `double` are arguments; the other children are about these definitions.
pub mod State
pub mod Rows
pub mod Aggregates
pub mod Updates
pub mod Connections
pub mod Totals
pub mod Processes
pub mod Closing
pub mod Shares
pub mod Conservation
pub mod Invariant
pub mod Sessions
pub mod Reports
pub mod Refinement
pub mod Finals
mod Tests
