-- ===== src/Session/Refresh/Held.antt =====
-- Every request that was started is in flight, held back or settled, and that once.
use mpc_main.Prelude.{
  ℕ, ◌+◌, String, ◌≡◌, refl, ap, inl, inr, true, false, not, ◌&&◌, Option, none, List, [], ◌∷◌,
  ◌++◌, arith, ◌==◌, if◌then◌else◌, Bool-cases,
}
use mpc_main.Session.Refresh.{
  Flight, call, refresh, Client, Response, arrived, failed, Settled, resolved, rejected, prepared,
  launch, launch_all, mark_retry, retried, is_unauthorized, refresh_config, set_header, reject,
  start, Step, begin, write, reply, Reach, now, next, intercept, refreshed, receive,
}

abbrev same : ℕ → ℕ → ℕ
same n m = if n == m then 1 else 0

module _ (n : ℕ) where
  -- How often a flight, a list of flights, and the settled promises have the request `n`.
  abbrev pub of_flight : Flight → ℕ
  of_flight (call m c) = same n m
  of_flight (refresh c owner) = of_flight owner

  abbrev pub of_flights : List Flight → ℕ
  of_flights [] = 0
  of_flights (f ∷ rest) = of_flight f + of_flights rest

  abbrev pub of_settled : List Settled → ℕ
  of_settled [] = 0
  of_settled (resolved m ∷ rest) = same n m + of_settled rest
  of_settled (rejected m ∷ rest) = same n m + of_settled rest

  abbrev pub held : Client → ℕ
  held s = of_flights s.flights + of_flights s.waiting + of_settled s.settled

  pub of_flights-append :
      (xs ys : List Flight) → of_flights (xs ++ ys) ≡ of_flights xs + of_flights ys
  of_flights-append [] ys = omega arith
  of_flights-append (x ∷ xs) ys = omega (arith, of_flights-append xs ys)

  of_flight-prepared : (f : Flight) → of_flight (prepared f) ≡ of_flight f
  of_flight-prepared (call m c) = refl
  of_flight-prepared (refresh c owner) = refl

  of_flight-mark_retry : (f : Flight) → of_flight (mark_retry f) ≡ of_flight f
  of_flight-mark_retry (call m c) = refl
  of_flight-mark_retry (refresh c owner) = refl

  of_flight-set_header : (t : String) (f : Flight) → of_flight (set_header t f) ≡ of_flight f
  of_flight-set_header t (call m c) = refl
  of_flight-set_header t (refresh c owner) = refl

  held-launch : (s : Client) (f : Flight) → held (launch s f) ≡ held s + of_flight f
  unfolding launch
  held-launch s f =
      omega (arith, of_flights-append s.flights (prepared f ∷ []), of_flight-prepared f)

  held-launch_all :
      (s : Client) (fs : List Flight) → held (launch_all s fs) ≡ held s + of_flights fs
  unfolding launch_all
  held-launch_all s [] = omega arith
  held-launch_all s (f ∷ rest) = omega (arith, held-launch_all (launch s f) rest, held-launch s f)

  held-reject : (s : Client) (f : Flight) → held (reject s f) ≡ held s + of_flight f
  unfolding reject
  held-reject s (call m c) = omega arith
  held-reject s (refresh c owner) = held-reject (record s { refreshing = false }) owner

  held-intercept :
      (s : Client) (f : Flight) (status : Option ℕ)
      → held (intercept s f status) ≡ held s + of_flight f
  unfolding intercept
  held-intercept s f status = elim (Bool-cases (is_unauthorized status && not (retried f))) [
    | inr stop ↦ rw stop (held-reject s f)
    | inl again ↦ rw again (elim (Bool-cases s.refreshing) [
      | inl busy ↦
          simp busy
            (omega (arith, of_flights-append s.waiting (mark_retry f ∷ []), of_flight-mark_retry f))
      | inr free ↦ simp free (
          omega (
            arith,
            held-launch (record s { refreshing = true })
                (refresh (refresh_config f) (mark_retry f)),
            of_flight-mark_retry f,
          ))
    ])
  ]

  held-refreshed :
      (s : Client) (owner : Flight) (status : ℕ) (t : String)
      → held (refreshed s owner status t) ≡ held s + of_flight owner
  unfolding refreshed
  held-refreshed s owner status t =
      let s' : Client = record s { token = t; waiting = []; refreshing = false } in
      elim (Bool-cases (status == 200)) [
        | inr other ↦ rw other (held-reject s owner)
        | inl ok ↦ rw ok (
            omega (
              arith,
              held-launch (launch_all s' s.waiting) (set_header t owner),
              held-launch_all s' s.waiting,
              of_flight-set_header t owner,
            ))
      ]

  held-receive :
      (s : Client) (f : Flight) (r : Response) → held (receive s f r) ≡ held s + of_flight f
  unfolding receive
  held-receive s (call m c) (arrived status t) = omega arith
  held-receive s (refresh c owner) (arrived status t) = held-refreshed s owner status t
  held-receive s (call m c) (failed status) = held-intercept s (call m c) status
  held-receive s (refresh c owner) (failed status) = held-intercept s (refresh c owner) status

  held-reply :
      (s : Client) (before after : List Flight) (f : Flight) (r : Response)
      → s.flights ≡ before ++ f ∷ after
      → held (receive (record s { flights = before ++ after }) f r) ≡ held s
  held-reply s before after f r e = omega (
    arith,
    held-receive (record s { flights = before ++ after }) f r,
    ap of_flights e,
    of_flights-append before (f ∷ after),
    of_flights-append before after,
  )

  -- How often the request `n` is started in a step and in a run.
  abbrev begun : {s t : Client} → Step s t → ℕ
  begun (begin m) = same n m
  begun (write token) = 0
  begun (reply before after f r e) = 0

  abbrev pub started : {s t : Client} → Reach s t → ℕ
  started now = 0
  started (next r st) = begun st + started r

  held-Step : {s t : Client} (st : Step s t) → held t ≡ held s + begun st
  unfolding start
  held-Step (begin {s} m) =
      held-launch s (call m (record { captured = s.token; header = none; retry = false }))
  held-Step (write token) = omega arith
  held-Step (reply {s} before after f r e) = omega (arith, held-reply s before after f r e)

  -- However requests start and are answered, in whatever order, none is lost and none is settled
  -- twice: as often as a request was started in a run, so often it is in flight, held back or settled
  -- in the end, above what there was at first.
  pub held-Reach : {s t : Client} (r : Reach s t) → held t ≡ held s + started r
  held-Reach now = omega arith
  held-Reach (next r st) = omega (arith, held-Step st, held-Reach r)
