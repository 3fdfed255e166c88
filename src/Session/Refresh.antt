-- ===== src/Session/Refresh.antt =====
-- config/axios.config.ts: the instance of axios whose interceptors add the token, refresh it after
-- a 401, and hold back the requests that fail meanwhile. `isRefreshing` and `refreshSubscribers`
-- are one for all instances; the token in a header is the one that the store held when the
-- instance was made. A request is followed from its start until its promise is settled.
pub mod Weight
pub mod Stuck
pub mod Held
pub mod Header
use mpc_main.Prelude.{
  ℕ, zero, suc, ◌+◌, ◌-◌, ◌*◌, ◌/◌, ◌%◌, ◌^◌, ◌≤◌, ◌<◌, String, ◌≡◌, refl, sym, ap, ◌∙◌, ◌≢◌, ◌↔◌,
  ◌⊎◌, inl, inr, Bool, true, false, not, ◌&&◌, ◌||◌, Option, none, some, List, [], ◌∷◌, ◌++◌, map,
  arith, str_eq, eq_iff, eq_refl, ltb, leb, ◌==◌, if◌then◌else◌, Bool-cases, Option-cases,
  and-eq-true, truthy, or_text, length, take, drop, keep, find, any, all, length-take, length-drop,
  length-snoc, take-add, take_all, flat, flat-snoc, keep-append, keep_of_all, all-keep, all-take,
  all-drop, keep-keep, All, All-append, All-keep, Text, units, text_eq, text_eq_sound, text_eq_refl,
  is_empty, append_injective, String-cases,
}

-- `error.config` of a request: the token of its instance, the header that was set, `_retry`.
pub record Config : Type 0 where
  pub captured : String
  pub header : Option String
  pub retry : Bool

-- A request of the program, by its number, or the refresh that another request waits for.
pub data Flight : Type 0 where
  call : ℕ → Config → Flight
  refresh : Config → Flight → Flight

-- The promise of a request is settled with an answer or with the error.
pub data Settled : Type 0 where
  resolved rejected : ℕ → Settled

pub record Client : Type 0 where
  pub token : String
  pub refreshing : Bool
  pub waiting : List Flight
  pub flights : List Flight
  pub settled : List Settled

-- What comes back for a flight: an answer with its status and `data.data`, or an error, whose
-- status is missing where there is no response.
pub data Response : Type 0 where
  arrived : ℕ → String → Response
  failed : Option ℕ → Response

-- The request interceptor.
abbrev pub prepare : Config → Config
prepare c = if truthy c.captured then record c { header = some c.captured } else c

abbrev pub prepared : Flight → Flight
prepared (call n c) = call n (prepare c)
prepared (refresh c owner) = refresh (prepare c) owner

-- `newInstance(config)`
unfoldable pub launch : Client → Flight → Client
launch s f = record s { flights = s.flights ++ prepared f ∷ [] }

unfoldable pub launch_all : Client → List Flight → Client
unfolding launch
launch_all s [] = s
launch_all s (f ∷ rest) = launch_all (launch s f) rest

abbrev pub retried : Flight → Bool
retried (call n c) = c.retry
retried (refresh c owner) = c.retry

abbrev pub mark_retry : Flight → Flight
mark_retry (call n c) = call n (record c { retry = true })
mark_retry (refresh c owner) = refresh (record c { retry = true }) owner

-- `originalRequest.headers.Authorization = ...`
abbrev pub set_header : String → Flight → Flight
set_header token (call n c) = call n (record c { header = some token })
set_header token (refresh c owner) = refresh (record c { header = some token }) owner

abbrev pub captured_by : Flight → String
captured_by (call n c) = c.captured
captured_by (refresh c owner) = c.captured

-- A rejected promise; a rejected refresh goes to the `catch` of the request that waits for it.
unfoldable pub reject : Client → Flight → Client
reject s (call n c) = record s { settled = rejected n ∷ s.settled }
reject s (refresh c owner) = reject (record s { refreshing = false }) owner

abbrev pub is_unauthorized : Option ℕ → Bool
is_unauthorized none = false
is_unauthorized (some status) = status == 401

abbrev pub refresh_config : Flight → Config
refresh_config f = record { captured = captured_by f; header = none; retry = false }

-- The error branch of the response interceptor.
unfoldable pub intercept : Client → Flight → Option ℕ → Client
unfolding launch reject
intercept s f status =
    if is_unauthorized status && not (retried f)
    then (if s.refreshing
        then record s { waiting = s.waiting ++ mark_retry f ∷ [] }
        else launch (record s { refreshing = true }) (refresh (refresh_config f) (mark_retry f)))
    else reject s f

-- The refresh was answered: with 200 the token is stored, the requests held back are sent, and then
-- the one that asked; with any other status that one is rejected.
unfoldable pub refreshed : Client → Flight → ℕ → String → Client
unfolding launch launch_all reject
refreshed s owner status new_token =
    if status == 200
    then launch
        (launch_all (record s { token = new_token; waiting = []; refreshing = false }) s.waiting)
        (set_header new_token owner)
    else reject s owner

-- A response for a flight, which is over.
unfoldable pub receive : Client → Flight → Response → Client
unfolding intercept refreshed
receive s (call n c) (arrived status new_token) = record s { settled = resolved n ∷ s.settled }
receive s (refresh c owner) (arrived status new_token) = refreshed s owner status new_token
receive s f (failed status) = intercept s f status

-- `createAxios()` and a request of the program through it.
unfoldable pub start : Client → ℕ → Client
unfolding launch
start s n = launch s (call n (record { captured = s.token; header = none; retry = false }))

-- What can happen next: a request starts, another part of the program writes the token to the store, as
-- a login and a logout do, or a request in flight is answered; in any order.
pub data Step : Client → Client → Type 0 where
  begin : {s : Client} (n : ℕ) → Step s (start s n)
  write : {s : Client} (token : String) → Step s (record s { token = token })
  reply :
      {s : Client} (before after : List Flight) (f : Flight) (r : Response)
      → s.flights ≡ before ++ f ∷ after
      → Step s (receive (record s { flights = before ++ after }) f r)

pub data Reach (s : Client) : Client → Type 0 where
  now : Reach s s
  next : {t u : Client} → Reach s t → Step t u → Reach s u

abbrev pub idle : String → Client
idle token = record { token = token; refreshing = false; waiting = []; flights = []; settled = [] }
