-- ===== src/Session/Refresh/Stuck.antt =====
-- A refresh that is itself refused with 401 goes through the same interceptor.
use mpc_main.Prelude.{
  ℕ, ◌≡◌, refl, ap, inl, inr, true, false, not, ◌&&◌, none, some, List, [], ◌∷◌, ◌++◌, arith,
  Bool-cases,
}
use mpc_main.Session.Refresh.{
  Config, Flight, call, refresh, Client, Response, arrived, failed, prepared, launch, mark_retry,
  is_unauthorized, reject, intercept, receive, start, Step, begin, write, reply, Reach, now, next,
}
use mathlib.Core.List.{append_assoc, append-nil}
use mpc_main.Session.Refresh.Weight.{total, total-append, weight-prepared, IsSingle}

-- `isRefreshing` is set and no refresh is on its way that could clear it.
pub record IsStuck (s : Client) : Type 0 where
  pub busy : s.refreshing ≡ true
  pub no_refresh : total s.flights ≡ 0

-- A stuck client that still holds back what it held back.
record Holds (ws : List Flight) (t : Client) : Type 0 where
  stuck : IsStuck t
  more : List Flight
  kept : t.waiting ≡ ws ++ more

module _ {ws : List Flight} where
  receive-Holds :
      (s : Client) (n : ℕ) (c : Config) (r : Response)
      → Holds ws s
      → Holds ws (receive s (call n c) r)
  unfolding receive intercept reject
  receive-Holds s n c (arrived status t) h = record {
    stuck = record { busy = h.stuck.busy; no_refresh = h.stuck.no_refresh };
    more = h.more;
    kept = h.kept;
  }
  receive-Holds s n c (failed status) h =
      elim (Bool-cases (is_unauthorized status && not c.retry)) [
        | inr stop ↦ rw stop (record {
          stuck = record { busy = h.stuck.busy; no_refresh = h.stuck.no_refresh };
          more = h.more;
          kept = h.kept;
        })
        | inl again ↦ rw again (
            simp h.stuck.busy (record {
              stuck = record { busy = refl; no_refresh = h.stuck.no_refresh };
              more = h.more ++ mark_retry (call n c) ∷ [];
              kept = simp (h.kept, append_assoc);
            }))
      ]

  Step-Holds : {s t : Client} → Step s t → Holds ws s → Holds ws t
  unfolding start launch
  Step-Holds (begin {s} n) h = record {
    stuck = record {
      busy = h.stuck.busy;
      no_refresh = omega (
        arith,
        h.stuck.no_refresh,
        total-append s.flights
            (prepared (call n (record { captured = s.token; header = none; retry = false })) ∷ []),
        weight-prepared (call n (record { captured = s.token; header = none; retry = false })),
      );
    };
    more = h.more;
    kept = h.kept;
  }
  Step-Holds (write token) h = record {
    stuck = record { busy = h.stuck.busy; no_refresh = h.stuck.no_refresh };
    more = h.more;
    kept = h.kept;
  }
  Step-Holds (reply {s} before after (call n c) r e) h = receive-Holds _ n c r (record {
    stuck = record {
      busy = h.stuck.busy;
      no_refresh = omega (
        arith,
        h.stuck.no_refresh,
        ap total e,
        total-append before (call n c ∷ after),
        total-append before after,
      );
    };
    more = h.more;
    kept = h.kept;
  })
  Step-Holds (reply {s} before after (refresh c owner) r e) h =
      absurd (
        omega
          (arith, h.stuck.no_refresh, ap total e, total-append before (refresh c owner ∷ after)))

  Reach-Holds : {s t : Client} → Holds ws s → Reach s t → Holds ws t
  Reach-Holds h now = h
  Reach-Holds h (next r st) = Step-Holds st (Reach-Holds h r)

-- Where the one refresh that is under way, and was not sent again, is refused with 401, the client
-- hangs: whatever happens afterwards, `isRefreshing` stays set, no further refresh is sent, and the
-- request that asked for the refresh is held back for ever, with all that waited before it.
pub refused_refresh_hangs :
    (s t : Client) (before after : List Flight) (c : Config) (owner : Flight)
    → IsSingle s
    → s.flights ≡ before ++ refresh c owner ∷ after
    → c.retry ≡ false
    → Reach
        (receive (record s { flights = before ++ after }) (refresh c owner) (failed (some 401)))
        t
    → (t.refreshing ≡ true)
      × (total t.flights ≡ 0)
      × ((more : List Flight) × (t.waiting
            ≡ s.waiting ++ refresh (record c { retry = true }) owner ∷ more))
unfolding receive intercept
refused_refresh_hangs s t before after c owner h e first later =
    let landed = total-append before (refresh c owner ∷ after) in
    let busy : s.refreshing ≡ true = elim (Bool-cases s.refreshing) [
      | inl b ↦ b
      | inr free ↦ absurd (omega (arith, h.none_idle free, ap total e, landed))
    ] in
    let start : Holds (s.waiting ++ refresh (record c { retry = true }) owner ∷ [])
        (receive (record s { flights = before ++ after }) (refresh c owner) (failed (some 401))) =
      simp (first, busy)
        (record {
          stuck = record {
            busy = refl;
            no_refresh =
                omega (arith, h.at_most_one, ap total e, landed, total-append before after);
          };
          more = [];
          kept = simp append-nil;
        }) in
    let last = Reach-Holds start later in
    (last.stuck.busy, last.stuck.no_refresh, (last.more, simp append_assoc at last.kept))
