-- ===== src/Server/Transactions/Pages.antt =====
-- The pages of the server, put together.
use mpc_main.Prelude.{ℕ, zero, suc, ◌%◌, ◌^◌, String, List, [], ◌++◌}
use mpc_main.Server.Transactions.{
  Tables, Transaction, Answer, payload, refused, selected, get_transactions,
}

-- The transactions of an answer.
abbrev pub transactions_of : Answer → List Transaction
transactions_of (payload l) = l.transactions
transactions_of (refused status) = []

abbrev pub total_pages_of : Answer → ℕ
total_pages_of (payload l) = l.total_pages
total_pages_of (refused status) = 0

module _ (lower : String → String) (db : Tables) (chain : ℕ) (address : String) (size : ℕ) where
  -- What the pages up to a number hold.
  abbrev pub pages_upto : ℕ → List Transaction
  pages_upto zero = []
  pages_upto (suc k) =
      pages_upto k ++ transactions_of (get_transactions lower db chain address (suc k) size)

  abbrev pub rows : List Transaction
  rows = selected db (lower address) (chain % 2 ^ 32)
