-- ===== src/Tests/Server.antt =====
-- A signer of tokens, a database and tables, and the server and the client at them.
use mpc_main.Prelude.{
  ℕ, zero, suc, ◌+◌, ◌/◌, ◌≤◌, ◌<◌, String, ◌≡◌, refl, ◌≢◌, ◌↔◌, ◌⊎◌, inl, inr, Bool, true, false,
  Option, none, some, List, [], ◌∷◌, map, arith, str_eq, eq_iff, eq_refl, ltb, leb, ◌==◌,
  if◌then◌else◌, Bool-cases, truthy, length, units,
}
use Prim.Native.Char.{code}
use mpc_main.Server.Token.{
  Claims, Jwt, Redis, access, refresh, claims_at, Pair, verify_token, check_stored,
  generate_token_pair, generate_token, revoke_token, refresh_service, Request, serve, serve_all,
  authorize, enter, renew,
}
use mpc_main.Server.Token.Rotation.{exchanged-verify_token, authorize-refresh}
use mpc_main.Server.Token.Guard.{authorize-protect}
use mpc_main.Server.Refresh.{refresh_handler, query_body, query_answer, axios_body, axios_response}
use mpc_main.Server.Refresh.Ends.{query_with_reauth-ends}
use mpc_main.Server.Refresh.Keeps.{ServedReach, here, replies, to_reach, ServedReach-waiting}
use mpc_main.Server.Transactions.{Transaction, Tables}
use mpc_main.Server.Transactions.Shown.{history_event, run-history_event}
use mpc_main.Server.Password.{Unicode, runes, byte_length, server_password}
use mpc_main.Server.Password.Laws.{server_password-validate_password}
use mpc_main.Store.{initial_auth}
use mpc_main.Session.Expiry.{protect, outlet, to_login}
use mpc_main.Session.Query.{
  Args, Call, Answer, error, get as get_method, refresh_args, query_with_reauth,
}
use mpc_main.Session.Refresh.{Client, Config, Flight, call, receive}
use mpc_main.Session.Refresh.Held.{of_flights, of_settled, started}
use mpc_main.Transaction.Paging.{run}
use mpc_main.Validation.{is_upper, is_lower, is_digit}
use mpc_main.Validation.Password.{validate_password}

-- A number as so many letters.
ones : ℕ → String → String
ones zero s = s
ones (suc n) s = String.◌∷◌ "a" (ones n s)

ones_of : String → ℕ × String
ones_of String.[] = (0, "")
ones_of (String.◌∷◌ c s) =
    let (n, rest) = ones_of s in if code c == b'a' then (n + 1, rest) else (0, s)

ones_of-ones : (n : ℕ) (s : String) → ones_of (ones n (String.◌∷◌ "b" s)) ≡ (n, s)
unfolding ones ones_of
ones_of-ones zero s = refl
ones_of-ones (suc n) s = rw (ones, ones_of, ones_of-ones n s) (ground arith)

-- A token is its claims, written out.
sign : Claims → String
sign c = ones c.expires_at (String.◌∷◌ "b" (ones c.issued_at (String.◌∷◌ "b" c.user_id)))

read : ℕ → String → Option Claims
read now t =
    let (expires_at, rest) = ones_of t in
    let (issued_at, user_id) = ones_of rest in
    if ltb now expires_at
    then some (record { user_id = user_id; expires_at = expires_at; issued_at = issued_at })
    else none

read-sign :
    (now : ℕ) (c : Claims) → read now (sign c) ≡ (if ltb now c.expires_at then some c else none)
unfolding read sign
read-sign now c = rw (read, sign, ones_of-ones, ones_of-ones) refl

ones-full : (n : ℕ) (s : String) → truthy (ones n (String.◌∷◌ "b" s)) ≡ true
unfolding ones
ones-full zero s = refl
ones-full (suc n) s = refl

sign-full : (c : Claims) → truthy (sign c) ≡ true
unfolding sign
sign-full c = ones-full c.expires_at _

abbrev jwt : Jwt
jwt = record { signed_string = sign; parse = read; parse-signed_string = read-sign }

abbrev Stored : Type 0
Stored = String → Option (String × ℕ)

abbrev get : String → ℕ → Stored → Option String
get k now db = elim (db k) [
  | none ↦ none
  | some (v, until) ↦ if ltb now until then some v else none
]

abbrev put : String → String → ℕ → ℕ → Stored → Bool × Stored
put k v d now db = (true, λ j. if str_eq j k then some (v, now + d) else db j)

abbrev del : String → Stored → Bool × Stored
del k db = (true, λ j. if str_eq j k then none else db j)

str_eq-ne : (j k : String) → j ≢ k → str_eq j k ≡ false
str_eq-ne j k other = elim (Bool-cases (str_eq j k)) [
  | inl same ↦ absurd (other ((eq_iff j k).0 same))
  | inr e ↦ e
]

put_other_lem :
    (j k v : String) (d now later : ℕ) (db : Stored)
    → j ≢ k
    → get j later (put k v d now db).1 ≡ get j later db
put_other_lem j k v d now later db other = rw (str_eq-ne j k other, get) refl

del_other_lem :
    (j k : String) (later : ℕ) (db : Stored) → j ≢ k → get j later (del k db).1 ≡ get j later db
del_other_lem j k later db other = rw (str_eq-ne j k other, get) refl

put_self_lem :
    (k v w : String) (d now later : ℕ) (db : Stored)
    → get k later (put k v d now db).1 ≡ some w
    → (w ≡ v) ⊎ (((put k v d now db).0 ≡ false) × (get k later db ≡ some w))
put_self_lem k v w d now later db h = inl (ground (arith, eq_refl k))

put_kept_lem :
    (k v : String) (d now later : ℕ) (db : Stored)
    → (put k v d now db).0 ≡ true
    → later < now + d
    → get k later (put k v d now db).1 ≡ some v
put_kept_lem k v d now later db h early = ground (arith, eq_refl k)

del_self_lem :
    (k w : String) (later : ℕ) (db : Stored)
    → get k later (del k db).1 ≡ some w
    → ((del k db).0 ≡ false) × (get k later db ≡ some w)
del_self_lem k w later db h = absurd (ground (arith, eq_refl k))

abbrev redis : Redis
redis = record {
  Db = Stored;
  get = get;
  put = put;
  del = del;
  put_other = put_other_lem;
  del_other = del_other_lem;
  put_self = put_self_lem;
  put_kept = put_kept_lem;
  del_self = del_self_lem;
}

abbrev nothing : Stored
nothing k = none

-- The refresh token that "an" is given at the second 5.
abbrev first_token : String
first_token = sign (claims_at 5 "an" refresh)

abbrev after_login : Stored
after_login = serve_all jwt redis ((5, enter "an") ∷ []) nothing

given :
    (refresh_service jwt redis 100 first_token after_login).0
    ≡ some (record {
      access_token = sign (claims_at 100 "an" access);
      refresh_token = sign (claims_at 100 "an" refresh);
    })
unfolding serve_all serve generate_token_pair generate_token revoke_token refresh_service
    check_stored verify_token
given = rw (refresh_service, verify_token, read-sign) (rw (check_stored, eq_refl) refl)

-- The token is offered again, and others log in and refresh meanwhile.
abbrev later_requests : List (ℕ × Request)
later_requests = (120, renew first_token) ∷ (120, enter "binh") ∷ (140, enter "an") ∷ []

exchanged-verify_token_example :
    verify_token jwt redis 200 first_token refresh
      (serve_all jwt redis later_requests (refresh_service jwt redis 100 first_token after_login).1)
    ≡ none
exchanged-verify_token_example =
    exchanged-verify_token jwt redis "an" 5 100 200
      (record {
        access_token = sign (claims_at 100 "an" access);
        refresh_token = sign (claims_at 100 "an" refresh);
      })
      later_requests after_login (omega arith) given (omega arith)

authorize-refresh_example : authorize jwt redis 600000 first_token nothing ≡ some "an"
authorize-refresh_example =
    authorize-refresh jwt redis "an" 5 600000 nothing (sign-full (claims_at 5 "an" refresh))
      (omega arith)

-- The decoder of the client reads when a token expires.
abbrev decoder : String → Option ℕ
decoder t = let (n, rest) = ones_of t in some n

decoder-sign : (c : Claims) → decoder (sign c) ≡ some c.expires_at
unfolding sign
decoder-sign c = rw (sign, ones_of-ones) refl

authorize-protect_example :
    (authorize jwt redis (43205999 / 1000) (sign (claims_at 5 "an" access)) nothing ≡ some "an") ↔ (
      (protect decoder (sign (claims_at 5 "an" access)) 43205999 ≡ outlet)
      × (43205999 / 1000 ≢ 5 + 43200))
authorize-protect_example =
    authorize-protect jwt redis decoder decoder-sign "an" 5 43205999 nothing
      (sign-full (claims_at 5 "an" access))

-- A server that refuses every request with 401, and has nothing but the handler of the refresh.
abbrev refusing : Call → ℕ → Answer String × ℕ
refusing c w =
    if str_eq c.args.url "/api/v1/auth/refresh"
    then (
      query_answer (λ (p : Pair). p.access_token)
          (refresh_handler jwt redis w query_body nothing).0,
      w + 1,
    )
    else (error 401, w + 1)

refusing-refresh_args :
    (c : Call) (w : ℕ)
    → c.args ≡ refresh_args
    → (refusing c w).0
      ≡ query_answer
          (λ (p : Pair). p.access_token)
          (refresh_handler jwt redis w query_body nothing).0
unfolding refresh_handler query_answer
refusing-refresh_args c w e = rw e refl

abbrev cards_query : Args
cards_query = record { url = "/api/v1/bankcards"; method = get_method; include_credentials = false }

query_with_reauth-ends_example :
    let done = query_with_reauth (λ d. d) refusing cards_query initial_auth 0 in
    (done.answer ≡ error 401)
    × (length done.calls ≡ 2)
    × (protect decoder done.auth.access_token 0 ≡ to_login)
query_with_reauth-ends_example =
    query_with_reauth-ends jwt redis (λ d. d) (λ (p : Pair). p.access_token) refusing (λ w. w)
      (λ w. nothing) decoder cards_query initial_auth 0 0 refusing-refresh_args refl

abbrev config : Config
config = record { captured = "old"; header = some "old"; retry = true }

-- The request 1 has asked for a refresh, and the request 2 is held back.
abbrev refreshing : Client
refreshing = record {
  token = "old";
  refreshing = true;
  waiting = call 2 config ∷ [];
  flights = Flight.refresh (record config { retry = false }) (call 1 config) ∷ [];
  settled = [];
}

abbrev answered : Client
answered =
    receive (record refreshing { flights = [] })
      (Flight.refresh (record config { retry = false }) (call 1 config))
      (axios_response (refresh_handler jwt redis 0 axios_body nothing).0)

abbrev answered-ServedReach : ServedReach jwt redis refreshing answered
answered-ServedReach = replies [] [] _ _ here refl (inr (0, nothing, refl))

ServedReach-waiting_example :
    (answered.token ≡ "old")
    × (of_flights 2 refreshing.waiting ≤ of_flights 2 answered.waiting)
    × (of_flights 2 answered.flights + of_settled 2 answered.settled
        ≤ of_flights 2 refreshing.flights
          + of_settled 2 refreshing.settled
          + started 2 (to_reach jwt redis answered-ServedReach))
ServedReach-waiting_example = ServedReach-waiting jwt redis 2 answered-ServedReach

abbrev sent : String → String → Transaction
sent id to_address = record {
  id = id;
  chain_id = 11155111;
  from_address = "0xa";
  to_address = to_address;
}

abbrev tables : Tables
tables = record {
  wallets = "0xa" ∷ "0xb" ∷ [];
  chains = 11155111 ∷ [];
  transactions = sent "t3" "0xb" ∷ sent "t2" "0xc" ∷ sent "t1" "0xb" ∷ [];
}

abbrev show : ℕ → String
show n = if n == 1 then "1" else (if n == 5 then "5" else "12")

run-history_event_example :
    run show [] (map (history_event (λ s. s) show) ((true, tables) ∷ (true, tables) ∷ [])) ≡ []
run-history_event_example = run-history_event (λ s. s) show ((true, tables) ∷ (true, tables) ∷ [])

-- The classes of characters, as they are on ASCII.
abbrev ascii : Unicode
ascii = record {
  upper = is_upper;
  lower = is_lower;
  number = is_digit;
  upper_ascii = λ c h. refl;
  lower_ascii = λ c h. refl;
  number_ascii = λ c h. refl;
}

server_password-validate_password_example :
    server_password ascii (runes (units "Secret#123"))
    ≡ leb (byte_length (runes (units "Secret#123"))) 72
unfolding validate_password
server_password-validate_password_example =
    server_password-validate_password ascii (units "Secret#123") refl
