-- ===== src/Transaction/Paging.antt =====
-- The list of pages/transaction/history.tsx, which loads page after page while one scrolls, and the
-- requests of services/api/transaction.api.ts. `useInfiniteQuery` of the package
-- @tanstack/react-query is used as documented: it fetches the first page with `initialPageParam`,
-- `fetchNextPage` one more with what `getNextPageParam` returns, and `hasNextPage` says whether that
-- is defined. A fetch that throws leaves the pages as they were.
use mpc_main.Prelude.{
  ℕ, ◌+◌, String, Bool, true, false, ◌||◌, Option, none, some, List, [], ◌∷◌, ◌++◌, ltb, ◌==◌,
  if◌then◌else◌, length,
}
use Prim.Native.String
use mpc_main.Ui.{Reply, answered, threw}

-- `getTransactionPaginate`, at its three arguments as the template prints them.
abbrev pub paginate_url : String → String → String → String
paginate_url wallet_address page limit = String.◌++◌ "/api/v1/transactions?wallet_address=" (
    String.◌++◌ wallet_address
      (String.◌++◌ "&page=" (String.◌++◌ page (String.◌++◌ "&page_size=" limit))))

-- The arguments of a call of `getTransactionPaginate`, as the template prints them.
pub record Asked : Type 0 where
  pub wallet_address : String
  pub page : String
  pub limit : String

abbrev pub url_of : Asked → String
url_of q = paginate_url q.wallet_address q.page q.limit

-- `show` is how a template prints a number.
module _ (show : ℕ → String) where
  -- The call of `fetchTransaction`: two arguments, so that the number of the page stands in the place
  -- of the address, twelve in that of the page, and the third is undefined.
  unfoldable pub asked : ℕ → Asked
  asked page = record { wallet_address = show page; page = show 12; limit = "undefined" }

-- One run of the effect: whether the last row is visible, and what the server answers to a call.
pub record Event (A : Type 0) : Type 0 where
  pub visible : Bool
  pub reply : Asked → Reply (List A)

module _ {A : Type 0} where
  abbrev pub last : List A → List (List A) → List A
  last page [] = page
  last page (next ∷ rest) = last next rest

  -- `fetchTransaction`, at the answer; `none` is that it throws.
  unfoldable pub fetch_transaction : Reply (List A) → Option (List A)
  fetch_transaction (answered status transactions) =
      if status == 200 then some transactions else none
  fetch_transaction (threw f) = none

  -- `getNextPageParam`
  unfoldable pub next_page : List A → List (List A) → Option ℕ
  next_page last_page pages = if ltb 0 (length last_page) then some (length pages + 1) else none

  -- The number of the page to fetch next; the first is `initialPageParam`.
  unfoldable pub page_param : List (List A) → Option ℕ
  unfolding next_page
  page_param [] = some 1
  page_param (page ∷ rest) = next_page (last page rest) (page ∷ rest)

  abbrev pub has_next : List (List A) → Bool
  unfolding page_param
  has_next pages = elim (page_param pages) [ none ↦ false | some n ↦ true ]

  abbrev pub is_loading : List (List A) → Bool
  is_loading [] = true
  is_loading (_ ∷ _) = false

module _ {A : Type 0} (show : ℕ → String) where
  -- What one run brings: the first page is fetched when the list is shown, each further one when
  -- the last row is visible.
  unfoldable pub fetched : List (List A) → Event A → Option (List A)
  unfolding asked
  fetched pages e = elim (page_param pages) [
    | none ↦ none
    | some n ↦
        if is_loading pages || e.visible then fetch_transaction (e.reply (asked show n)) else none
  ]

  unfoldable pub step : List (List A) → Event A → List (List A)
  unfolding fetched
  step pages e = elim (fetched pages e) [ none ↦ pages | some page ↦ pages ++ (page ∷ []) ]

  unfoldable pub run : List (List A) → List (Event A) → List (List A)
  unfolding step
  run pages [] = pages
  run pages (e ∷ rest) = run (step pages e) rest
