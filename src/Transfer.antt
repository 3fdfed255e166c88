-- ===== src/Transfer.antt =====
-- A transfer: pages/transfer/transfer.tsx, the three steps, with the pages of each.
pub mod Search
pub mod Amount
pub mod Drawer
pub mod Results
pub mod Wizard
