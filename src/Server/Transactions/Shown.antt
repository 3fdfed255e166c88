-- ===== src/Server/Transactions/Shown.antt =====
-- pages/transaction/history.tsx beside the server.
use mpc_main.Prelude.{
  ℕ, String, ◌≡◌, refl, Bool, Option, none, some, List, [], ◌∷◌, map, str_eq, if◌then◌else◌,
}
use mpc_main.Ui.{Reply, answered, threw, network, refused}
use mpc_main.Transaction.Paging.{
  Asked, Event, asked, fetch_transaction, fetched, page_param, step, run,
}
use mpc_main.Server.Transactions.{
  Query, Tables, Transaction, Listed, Answer, payload, transactions_handler,
}

-- The parameters that the server finds in the address of a call of `getTransactionPaginate`.
abbrev pub query_of : Asked → Query
query_of q = record {
  chain_id = none;
  wallet_address = some q.wallet_address;
  page = some q.page;
  page_size = some q.limit;
}

-- A value of JavaScript as far as it matters here: the rows of a list, or an object with its fields.
pub data Json : Type 0 where
  undefined empty : Json
  rows : List Transaction → Json
  entry : String → Json → Json → Json

-- `value.name`; reading of undefined raises an exception.
abbrev pub read : String → Json → Option Json
read name undefined = none
read name empty = some undefined
read name (rows ts) = some undefined
read name (entry key value rest) = if str_eq key name then some value else read name rest

abbrev pub read_path : List String → Json → Option Json
read_path [] value = some value
read_path (name ∷ rest) value = elim (read name value) [ none ↦ none | some v ↦ read_path rest v ]

-- The body of a success, an object whose one field `payload` is the list; the numbers of the list are left
-- out, which the page does not read.
unfoldable pub success_body : Listed → Json
success_body l = entry "payload" (entry "transactions" (rows l.transactions) empty) empty

-- What `fetchTransaction` makes of an answer, whose body is `response.data`: an error is raised by axios,
-- and a value that is no list is none that the query can go on with.
abbrev list_of : Option Json → Reply (List Transaction)
list_of (some (rows ts)) = answered 200 ts
list_of _ = threw network

unfoldable pub history_reply : Answer → Reply (List Transaction)
unfolding success_body
history_reply (payload l) =
    list_of (read_path ("data" ∷ "transactions" ∷ "transactions" ∷ []) (success_body l))
history_reply (Answer.refused status) = threw (refused none)

module _ (lower : String → String) (show : ℕ → String) where
  -- A run of the effect of the history at the tables that the server has then.
  unfoldable pub history_event : Bool × Tables → Event Transaction
  unfolding history_reply
  history_event (visible, db) = record {
    visible = visible;
    reply = λ q. history_reply (transactions_handler lower db (query_of q));
  }

  fetched-history_event :
      (e : Bool × Tables) (n : ℕ)
      → fetch_transaction ((history_event e).reply (asked show n)) ≡ none
  unfolding fetch_transaction history_event history_reply success_body
  fetched-history_event (visible, db) n =
      elim (transactions_handler lower db (query_of (asked show n)))
        as (λ a. fetch_transaction (history_reply a) ≡ none) [
          | payload l ↦ refl
          | Answer.refused status ↦ refl
        ]

  -- Beside the server the history shows nothing: whatever its tables hold at each moment, and however
  -- one scrolls, no page is ever loaded, since no field of the server's answer has the name that the
  -- page reads first.
  pub run-history_event :
      (events : List (Bool × Tables)) → run show [] (map history_event events) ≡ []
  unfolding run step fetched page_param
  run-history_event [] = refl
  run-history_event (e ∷ rest) =
      rw (run, step, fetched, page_param, fetched-history_event e 1) (run-history_event rest)
