-- ===== src/Tests/Session.antt =====
-- Runs of the store and of the session.
use mpc_main.Prelude.{
  ℕ, zero, suc, ◌+◌, String, ◌≡◌, refl, true, false, some, List, [], ◌∷◌, ◌++◌, All,
}
use mpc_main.Store.{initial_auth}
use mpc_main.Session.Query.{Args, Call, Answer, found, error, get, query_with_reauth}
use mpc_main.Session.Query.Laws.{Course, query-Course}
use mpc_main.Session.Refresh.{
  Config, Flight, call, refresh, Client, arrived, failed, launch, receive, intercept, start, begin,
  reply, Reach, now, next, idle,
}
use mpc_main.Session.Refresh.Weight.{IsSingle, total, idle-IsSingle, Reach-IsSingle}
use mpc_main.Session.Refresh.Held.{held, started, held-Reach}
use mpc_main.Session.Refresh.Stuck.{refused_refresh_hangs}
use mpc_main.Session.Refresh.Header.{IsStamped, Reach-IsStamped}

-- A server that refuses the first call, then gives a token, then the data.
abbrev third_time : Call → ℕ → Answer String × ℕ
third_time c zero = (error 401, 1)
third_time c (suc zero) = (found "new", 2)
third_time c (suc (suc n)) = (found "cards", 3)

abbrev cards_args : Args
cards_args = record { url = "/api/v1/bankcards"; method = get; include_credentials = false }

query-Course_example :
    Course
      (λ d. d)
      third_time
      cards_args
      initial_auth
      0
      (query_with_reauth (λ d. d) third_time cards_args initial_auth 0)
query-Course_example = query-Course (λ d. d) third_time cards_args initial_auth 0

abbrev config : Config
config = record { captured = "old"; header = some "old"; retry = false }

-- A request is one_call and refused, so that a refresh is under way.
abbrev one_call : Client
one_call = start (idle "old") 1

abbrev refused_once : Client
refused_once = receive (record one_call { flights = [] }) (call 1 config) (failed (some 401))

one_flight : one_call.flights ≡ [] ++ call 1 config ∷ []
unfolding start launch
one_flight = refl

abbrev refused_once-Reach : Reach (idle "old") refused_once
refused_once-Reach =
    next (next now (begin 1)) (reply [] [] (call 1 config) (failed (some 401)) one_flight)

Reach-IsSingle_example : IsSingle refused_once
Reach-IsSingle_example = Reach-IsSingle (idle-IsSingle "old") refused_once-Reach

held-Reach_example : held 1 refused_once ≡ 0 + started 1 refused_once-Reach
held-Reach_example = held-Reach 1 refused_once-Reach

abbrev owner : Flight
owner = call 1 (record config { retry = true })

refresh_flight : refused_once.flights ≡ [] ++ refresh config owner ∷ []
unfolding receive start launch intercept
refresh_flight = refl

refused_refresh_hangs_example :
    let t =
      receive (record refused_once { flights = [] }) (refresh config owner) (failed (some 401)) in
    (t.refreshing ≡ true)
    × (total t.flights ≡ 0)
    × ((more : List Flight) × (t.waiting
          ≡ refused_once.waiting ++ refresh (record config { retry = true }) owner ∷ more))
refused_refresh_hangs_example =
    refused_refresh_hangs refused_once
      (receive (record refused_once { flights = [] }) (refresh config owner) (failed (some 401))) []
      [] config owner (Reach-IsSingle (idle-IsSingle "old") refused_once-Reach) refresh_flight refl
      now

abbrev renewed : Client
renewed = receive (record refused_once { flights = [] }) (refresh config owner) (arrived 200 "new")

abbrev renewed-Reach : Reach (idle "old") renewed
renewed-Reach =
    next refused_once-Reach (reply [] [] (refresh config owner) (arrived 200 "new") refresh_flight)

Reach-IsStamped_example : All (IsStamped (λ n. "old")) renewed.flights
Reach-IsStamped_example =
    Reach-IsStamped (λ n. "old") renewed-Reach refl refl (tt, (tt, (refl, tt)))
