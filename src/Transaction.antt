-- ===== src/Transaction.antt =====
-- Transactions: components/transaction, and the list of pages/transaction/history.tsx with that of
-- components/home/recent_transaction.tsx.
pub mod Label
pub mod Paging
