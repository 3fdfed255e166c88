-- ===== src/Lib.antt =====
-- The web client of the MPC wallet (client/src): sign-up, login, the session with its tokens, cards,
-- deposits, withdrawals, transfers, payments, receiving, the list of transactions and settings.
--
-- How the parts interact. A page holds a state, its handlers change it and ask for effects: a toast, a
-- navigation, an action for the Redux store, a request. A handler with an `await` is two functions, up
-- to its request and from the answer on, so that other events may come in between; a `Reply` is an
-- answer with its status or a rejection, with or without a response. Requests go out through axios,
-- whose interceptors renew the token (Session/Refresh), or through the queries of Redux Toolkit, which
-- do so too (Session/Query). The token of both stands in the store (Store), and decides what the guarded
-- routes show (Session/Expiry).
--
-- Files, with the code that each is about:
--   Prelude, Ui            shared types and lemmas; effects and answers of requests
--   Store                  redux/auth/authSlice.ts, redux/features/walletSlice.ts
--   Session/Expiry         utils/expired-token.ts, utils/protect_routes.tsx
--   Session/Query          redux/features/api/apiSlice.ts (`baseQueryWithReauth` is `query_with_reauth`)
--   Session/Refresh        config/axios.config.ts, as a step relation: `prepare` and `receive` are the
--                          interceptors of requests and responses, `start` is `createAxios` and a call
--   Validation             utils/validate-password.ts and the regular expressions of the forms
--   Otp                    what the pages with six boxes for a code share: each fills the interface
--                          `CodeEntry` with its handlers
--   Auth/Thunk             redux/auth/authThunk.ts
--   Auth/Entrance          pages/authentication/login.tsx, register.tsx
--   Auth/Codes             pages/authentication/verify_login.tsx, verify_register.tsx,
--                          setup_security_code.tsx
--   Auth/Recover           pages/authentication/forgot-password.tsx, reset-password.tsx
--   Auth/Arrive            the messages that these pages show on arrival
--   Setting                components/setting/change_password.tsx, change_security_code.tsx, and the
--                          logout of profile_tab.tsx; its edit of the profile in Setting/Profile
--   Cards                  utils/format-credit-card.ts, pages/credit-card,
--                          redux/features/credit-card/creditCardApi.ts
--   Numbers, Wallet        pages/deposit-withdraw/deposit.tsx, withdraw.tsx, drawer_security.tsx, and
--                          the page around them, index.tsx, in Wallet/Choice
--   Transfer               pages/transfer, components/transfer/drawer_security.tsx
--   Payment                pages/payment/payment.tsx, components/payment
--   Business               pages/b2b/users.tsx, dashboard.tsx, components/b2b/header.tsx,
--                          pages/connect-app: connect-app.tsx, drawer_security.tsx, and
--                          connect-app-list.tsx, which no page imports, in Business/Keys/Listed
--   Transaction/Label      components/transaction: the rows and the details of a transaction
--   Transaction/Paging     pages/transaction/history.tsx, services/api/transaction.api.ts
--   Receive                pages/receive/receive.tsx, transfer.tsx, utils/convert_currency.ts,
--                          symbol_currency.ts
--   Home                   pages/home.tsx
--   Debounce               hooks/useDebounce.ts
--   Api                    services/api: the request of each function (`http_of`); Api/Served compares
--                          them with the routes of the server, backend/internal/api/router.go
--   Server                 backend: Server/Token the tokens and their store (pkg/token, the middleware),
--                          with the guard of the client in Server/Token/Guard; Server/Refresh the refresh
--                          and both clients of it; Server/Transactions the list of transactions with the
--                          history of the client in Server/Transactions/Shown; Server/Password the rule
--                          for passwords beside that of the form
--   Views                  what a page shows as a list of items, and what its buttons offer; the files
--                          Screen, with Business/Overview, Business/Keys/Listed and Wallet/Form, are such views
--   Routes                 app.tsx: the table of routes; Routes/Menu the menus and the tab that is marked
--                          (components/sidebar/sidebar.tsx, components/b2b/sidebar.tsx); Routes/Reached
--                          the pages that the handlers lead to; Routes/Journey what a login and a logout
--                          do to the routes
--   Tests                  runs of the theorems at concrete inputs
--
-- A file holds the definitions, and a folder of its name the proofs about them. All paths above are
-- below client/src, but for those of the server, which start with backend.
--
-- Representation. Text is a list of UTF-16 code units where the code looks into it, and a string where
-- it only passes it on. The doubles of JavaScript are an interface (`Numbers`): what is used of them is
-- that conversion, comparison and multiplication are exact on whole numbers of at most fifteen digits.
-- Packages are parameters: the decoder of tokens, the one that tells the brand of a card, the rule for
-- emails of antd, `fetchBaseQuery`, `toLowerCase`, the formatter of a currency; for the server, the signer of tokens (`Jwt`), its store
-- (`Redis`), the classes of characters (`Unicode`) and `strings.ToLower`. No definition takes
-- fuel: every loop is a recursion on a list. Runs are lists of events, or derivations of a step relation,
-- of any length and in any order; no answer is assumed to come but where a theorem says so.
--
-- Not modelled: the layout of the markup and its styles, of the servers all but what stands in Server and Api/Served, the pages of results but
-- for that of a transfer, and formatting by the platform (Intl). Of the pages that are modelled, timers
-- count as one effect with their delay, and the data that a navigation carries to a page of results is
-- left out. Where a path has several entries in the table of routes, what is stated holds for each of
-- them.
-- Of the list of recent transactions on the home page only the rows are modelled, not its query, which is
-- kept under a key without the address.

pub mod Prelude
pub mod Store
pub mod Ui
pub mod Server
pub mod Session
pub mod Validation
pub mod Otp
pub mod Auth
pub mod Setting
pub mod Cards
pub mod Numbers
pub mod Views
pub mod Wallet
pub mod Transfer
pub mod Payment
pub mod Business
pub mod Transaction
pub mod Api
pub mod Debounce
pub mod Home
pub mod Receive
pub mod Routes
mod Tests
