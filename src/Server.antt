-- ===== src/Server.antt =====
-- The parts of the server under backend/ that the client stands on, so that both can be run
-- together: its tokens, the answers to the refresh, and the pages of transactions.
pub mod Token
pub mod Password
pub mod Refresh
pub mod Transactions
