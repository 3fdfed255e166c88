-- ===== src/Server/Transactions.antt =====
-- The list of transactions from the request to the answer: GetTransactions of
-- backend/internal/api/handler/transaction.go and backend/internal/service/transaction.go,
-- backend/pkg/utils/pagination.go, and the queries of backend/internal/db/sqlc/transaction.sql.go.
-- The tables are lists; those of the transactions stand in the order of `created_at`, the newest
-- first. A failure of the database itself is left out.
pub mod Pages
pub mod Shown
use mpc_main.Prelude.{
  ℕ, zero, suc, ◌+◌, ◌-◌, ◌*◌, ◌/◌, ◌%◌, ◌^◌, ◌≤◌, ◌<◌, String, ◌≡◌, refl, sym, ap, ◌∙◌, ◌≢◌, ◌↔◌,
  ◌⊎◌, inl, inr, Bool, true, false, not, ◌&&◌, ◌||◌, Option, none, some, List, [], ◌∷◌, ◌++◌, map,
  arith, str_eq, eq_iff, eq_refl, ltb, leb, ◌==◌, if◌then◌else◌, Bool-cases, Option-cases,
  and-eq-true, truthy, or_text, length, take, drop, keep, find, any, all, length-take, length-drop,
  length-snoc, take-add, take_all, flat, flat-snoc, keep-append, keep_of_all, all-keep, all-take,
  all-drop, keep-keep, All, All-append, All-keep, Text, units, text_eq, text_eq_sound, text_eq_refl,
  is_empty, append_injective, String-cases,
}

-- The parameters of the request; one that is missing is `none`.
pub record Query : Type 0 where
  pub chain_id : Option String
  pub wallet_address : Option String
  pub page : Option String
  pub page_size : Option String

pub record Transaction : Type 0 where
  pub id : String
  pub chain_id : ℕ
  pub from_address : String
  pub to_address : String

pub record Tables : Type 0 where
  pub wallets : List String
  pub chains : List ℕ
  pub transactions : List Transaction

pub record Listed : Type 0 where
  pub transactions : List Transaction
  pub total : ℕ
  pub page : ℕ
  pub page_size : ℕ
  pub total_pages : ℕ

-- The payload of an answer with 200, or the status of an error.
pub data Answer : Type 0 where
  payload : Listed → Answer
  refused : ℕ → Answer

abbrev is_digit : ℕ → Bool
is_digit c = leb b'0' c && leb c b'9'

abbrev pub value_of : ℕ → Text → ℕ
value_of n [] = n
value_of n (c ∷ rest) = value_of (n * 10 + (c - b'0')) rest

abbrev digits : Text → ℕ
digits [] = 0
digits (c ∷ rest) =
    let n = value_of 0 (c ∷ rest) in
    if all is_digit (c ∷ rest) then (if ltb n (2 ^ 63) then n else 2 ^ 63 - 1) else 0

-- `strconv.Atoi`, whose error is ignored: 0 for a text that is no number, the greatest number for one
-- that is too great. A negative number is 0 here, as the tests that follow treat them alike.
unfoldable pub atoi : Text → ℕ
atoi [] = 0
atoi (c ∷ rest) = if c == b'+' then digits rest else digits (c ∷ rest)

-- `ValidatePagination`, which has no error.
abbrev pub valid_page : ℕ → ℕ
valid_page page = if ltb page 1 then 1 else page

abbrev pub valid_page_size : ℕ → ℕ
valid_page_size page_size =
    if ltb page_size 1 then 10 else (if ltb 100 page_size then 100 else page_size)

abbrev pub concerns : String → ℕ → Transaction → Bool
concerns address chain t =
    (str_eq t.from_address address || str_eq t.to_address address) && t.chain_id == chain

-- The rows that the queries of the list and of the count select.
unfoldable pub selected : Tables → String → ℕ → List Transaction
selected db address chain = keep (concerns address chain) db.transactions

-- `GetTransactionsByWalletAddress`: the offset is cast to an `int32`, and the database refuses one
-- that is negative.
unfoldable pub rows_at : List Transaction → ℕ → ℕ → Option (List Transaction)
rows_at rows limit offset =
    let start = offset % 2 ^ 32 in
    if ltb start (2 ^ 31) then some (take limit (drop start rows)) else none

-- `DefaultQuery`
abbrev pub default_query : Option String → String → Text
default_query none value = units value
default_query (some text) value = units text

-- `lower` is `strings.ToLower`.
module _ (lower : String → String) where
  -- The service.
  unfoldable pub get_transactions : Tables → ℕ → String → ℕ → ℕ → Answer
  unfolding selected rows_at
  get_transactions db chain wallet_address page page_size =
      let p = valid_page page in
      let size = valid_page_size page_size in
      let address = lower wallet_address in
      let rows = selected db address (chain % 2 ^ 32) in
      let total = length rows in
      if any (str_eq address) db.wallets
      then (if any (◌==◌ (chain % 2 ^ 32)) db.chains
          then elim (rows_at rows size ((p - 1) * size)) [
            | none ↦ refused 404
            | some found ↦ payload (record {
              transactions = found;
              total = total;
              page = p;
              page_size = size;
              total_pages = (total + size - 1) / size;
            })
          ]
          else refused 400)
      else refused 404

  -- The handler, for a request that the middleware let through.
  unfoldable pub transactions_handler : Tables → Query → Answer
  unfolding get_transactions
  transactions_handler db q =
      get_transactions db (atoi (default_query q.chain_id "11155111"))
        (elim (q.wallet_address) [ none ↦ "" | some address ↦ address ])
        (atoi (default_query q.page "1")) (atoi (default_query q.page_size "10"))
