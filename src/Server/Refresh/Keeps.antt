-- ===== src/Server/Refresh/Keeps.antt =====
-- What config/axios.config.ts holds back, beside the server that answers its refreshes.
use mpc_main.Prelude.{
  ℕ, ◌+◌, ◌≤◌, String, ◌≡◌, refl, sym, ap, ◌∙◌, ◌⊎◌, inl, inr, true, false, not, ◌&&◌, Option, none,
  some, List, [], ◌∷◌, ◌++◌, arith, Bool-cases,
}
use mathlib.Core.List.{append_assoc, append-nil}
use mpc_main.Session.Refresh.{
  Config, Flight, call, refresh, Client, Response, arrived, failed, launch, mark_retry, retried,
  is_unauthorized, reject, intercept, receive, start, begin, write, reply, Reach, now, next,
}
use mpc_main.Session.Refresh.Held.{of_flights, of_settled, of_flights-append, started, held-Reach}
use mpc_main.Server.Token.{Jwt, Redis}
use mpc_main.Server.Refresh.{refresh_handler, axios_body, axios_response}

module _ (jwt : Jwt) (redis : Redis) where
  -- A refresh is answered by the server's handler, or gets no answer; any other request, any.
  abbrev pub IsServed : Flight → Response → Type 0
  IsServed (call n c) r = Unit
  IsServed (refresh c owner) r =
      (r ≡ failed none)
      ⊎ ((now : ℕ) × (db : redis.Db) × (r
            ≡ axios_response (refresh_handler jwt redis now axios_body db).0))

  -- Steps and runs of the client beside that server; the rest of the program writes any token to the
  -- store at any time.
  pub data ServedReach (s : Client) : Client → Type 0 where
    here : ServedReach s s
    begins : {t : Client} (n : ℕ) → ServedReach s t → ServedReach s (start t n)
    writes :
        {t : Client} (token : String) → ServedReach s t → ServedReach s (record t { token = token })
    replies :
        {t : Client} (before after : List Flight) (f : Flight) (r : Response)
        → ServedReach s t
        → t.flights ≡ before ++ f ∷ after
        → IsServed f r
        → ServedReach s (receive (record t { flights = before ++ after }) f r)

  abbrev pub to_reach : {s t : Client} → ServedReach s t → Reach s t
  to_reach here = now
  to_reach (begins n r) = next (to_reach r) (begin n)
  to_reach (writes token r) = next (to_reach r) (write token)
  to_reach (replies before after f a r e served) = next (to_reach r) (reply before after f a e)

  -- The token that the rest of the program wrote last, or the one at first.
  abbrev pub written : {s t : Client} → ServedReach s t → String
  written {s} here = s.token
  written (begins n r) = written r
  written (writes token r) = token
  written (replies before after f a r e served) = written r

-- The token of a client, and what it holds back at least.
record Keeps (token : String) (ws : List Flight) (t : Client) : Type 0 where
  pub same_token : t.token ≡ token
  pub more : List Flight
  pub kept : t.waiting ≡ ws ++ more

intercept-waits :
    (s : Client) (f : Flight) (status : Option ℕ)
    → (is_unauthorized status && not (retried f)) ≡ true
    → s.refreshing ≡ true
    → (intercept s f status).waiting ≡ s.waiting ++ (mark_retry f ∷ [])
unfolding intercept
intercept-waits s f status asks busy = ground arith

-- What the client makes of the server's answer to its refresh: an error that is no 401.
IsServed-refresh :
    (jwt : Jwt) (redis : Redis) (c : Config) (owner : Flight) (r : Response)
    → IsServed jwt redis (refresh c owner) r
    → (status : Option ℕ) × (r ≡ failed status) × (is_unauthorized status ≡ false)
unfolding refresh_handler axios_response
IsServed-refresh jwt redis c owner r (inl e) = (none, e, refl)
IsServed-refresh jwt redis c owner r (inr (_, db, e)) = (some 400, e, refl)

module _ {token : String} {ws : List Flight} where
  reject-Keeps : (s : Client) (f : Flight) → Keeps token ws s → Keeps token ws (reject s f)
  unfolding reject
  reject-Keeps s (call n c) h = record { same_token = h.same_token; more = h.more; kept = h.kept }
  reject-Keeps s (refresh c owner) h =
      reject-Keeps (record s { refreshing = false }) owner
        (record { same_token = h.same_token; more = h.more; kept = h.kept })

  intercept-Keeps :
      (s : Client) (f : Flight) (status : Option ℕ)
      → Keeps token ws s
      → Keeps token ws (intercept s f status)
  unfolding intercept launch
  intercept-Keeps s f status h = elim (Bool-cases (is_unauthorized status && not (retried f))) [
    | inr over ↦ rw (intercept, over) (reject-Keeps s f h)
    | inl asks ↦ elim (Bool-cases s.refreshing) [
      | inl busy ↦ record {
        same_token = ground (arith, h.same_token);
        more = h.more ++ (mark_retry f ∷ []);
        kept =
            intercept-waits s f status asks busy
            ∙ ap (λ l. l ++ (mark_retry f ∷ [])) h.kept
            ∙ append_assoc ws h.more (mark_retry f ∷ []);
      }
      | inr first ↦ record {
        same_token = ground (arith, h.same_token);
        more = h.more;
        kept = ground (arith, h.kept);
      }
    ]
  ]

  refused-Keeps :
      (s : Client) (f : Flight) (status : Option ℕ)
      → Keeps token ws s
      → is_unauthorized status ≡ false
      → Keeps token ws (receive s f (failed status))
  unfolding receive intercept
  refused-Keeps s (call n c) status h other =
      rw (receive, intercept, other) (reject-Keeps s (call n c) h)
  refused-Keeps s (refresh c owner) status h other =
      rw (receive, intercept, other) (reject-Keeps s (refresh c owner) h)

  receive-Keeps :
      (jwt : Jwt) (redis : Redis) (s : Client) (f : Flight) (r : Response)
      → IsServed jwt redis f r
      → Keeps token ws s
      → Keeps token ws (receive s f r)
  unfolding receive
  receive-Keeps jwt redis s (call n c) (arrived status t) served h = record {
    same_token = h.same_token;
    more = h.more;
    kept = h.kept;
  }
  receive-Keeps jwt redis s (call n c) (failed status) served h =
      intercept-Keeps s (call n c) status h
  receive-Keeps jwt redis s (refresh c owner) r served h =
      let (status, e, other) = IsServed-refresh jwt redis c owner r served in
      rw e (refused-Keeps s (refresh c owner) status h other)

module _ (jwt : Jwt) (redis : Redis) where
  ServedReach-Keeps :
      {s t : Client} (run : ServedReach jwt redis s t) → Keeps (written jwt redis run) s.waiting t
  unfolding start launch
  ServedReach-Keeps {s} here = record {
    same_token = refl;
    more = [];
    kept = sym (append-nil s.waiting);
  }
  ServedReach-Keeps (begins n r) =
      let k = ServedReach-Keeps r in
      record { same_token = k.same_token; more = k.more; kept = k.kept }
  ServedReach-Keeps (writes token r) =
      let k = ServedReach-Keeps r in record { same_token = refl; more = k.more; kept = k.kept }
  ServedReach-Keeps (replies {t} before after f a r e served) =
      let k = ServedReach-Keeps r in
      receive-Keeps jwt redis (record t { flights = before ++ after }) f a served
        (record { same_token = k.same_token; more = k.more; kept = k.kept })

  -- Beside the server, a refresh brings no token, and what is held back stays so: however requests
  -- start and are answered and whatever tokens the rest of the program writes to the store, the token
  -- at the end is the one written last, a request is held back at the end at least as often as it was
  -- at first, and it is in flight or settled no more often than it was so at first or was started in
  -- the run. So no request that was once held back is ever sent again or settled.
  pub ServedReach-waiting :
      (n : ℕ) {s t : Client} (run : ServedReach jwt redis s t)
      → (t.token ≡ written jwt redis run)
        × (of_flights n s.waiting ≤ of_flights n t.waiting)
        × (of_flights n t.flights + of_settled n t.settled
            ≤ of_flights n s.flights + of_settled n s.settled + started n (to_reach jwt redis run))
  ServedReach-waiting n {s} {t} run =
      let k = ServedReach-Keeps run in
      let stays : of_flights n s.waiting ≤ of_flights n t.waiting =
        rw k.kept (omega (arith, of_flights-append n s.waiting k.more)) in
      (k.same_token, stays, omega (arith, stays, held-Reach n (to_reach jwt redis run)))
