-- ===== src/Session/Refresh/Weight.antt =====
-- At most one refresh is on its way.
use mpc_main.Prelude.{
  ℕ, suc, ◌+◌, ◌≤◌, String, ◌≡◌, refl, ap, ◌∙◌, inl, inr, true, false, not, ◌&&◌, Option, none,
  List, [], ◌∷◌, ◌++◌, arith, ◌==◌, Bool-cases,
}
use mpc_main.Session.Refresh.{
  Config, Flight, call, refresh, Client, Response, arrived, failed, prepared, launch, launch_all,
  mark_retry, retried, is_unauthorized, refresh_config, set_header, reject, intercept, refreshed,
  receive, start, Step, begin, write, reply, Reach, now, next, idle,
}

-- The refreshes in a flight: itself and those that its owner is one of.
abbrev pub weight : Flight → ℕ
weight (call n c) = 0
weight (refresh c owner) = suc (weight owner)

abbrev pub total : List Flight → ℕ
total [] = 0
total (f ∷ rest) = weight f + total rest

pub total-append : (xs ys : List Flight) → total (xs ++ ys) ≡ total xs + total ys
total-append [] ys = omega arith
total-append (x ∷ xs) ys = omega (arith, total-append xs ys)

pub weight-prepared : (f : Flight) → weight (prepared f) ≡ weight f
weight-prepared (call n c) = refl
weight-prepared (refresh c owner) = refl

pub weight-mark_retry : (f : Flight) → weight (mark_retry f) ≡ weight f
weight-mark_retry (call n c) = refl
weight-mark_retry (refresh c owner) = refl

pub weight-set_header : (t : String) (f : Flight) → weight (set_header t f) ≡ weight f
weight-set_header t (call n c) = refl
weight-set_header t (refresh c owner) = refl

-- No refresh is under way unless `isRefreshing` is set, and then there is one at most.
pub record IsSingle (s : Client) : Type 0 where
  pub none_idle : s.refreshing ≡ false → total s.flights + total s.waiting ≡ 0
  pub at_most_one : total s.flights + total s.waiting ≤ 1

total-launch : (s : Client) (f : Flight) → total (launch s f).flights ≡ total s.flights + weight f
unfolding launch
total-launch s f = omega (arith, total-append s.flights (prepared f ∷ []), weight-prepared f)

total-launch_all :
    (s : Client) (fs : List Flight) → total (launch_all s fs).flights ≡ total s.flights + total fs
unfolding launch_all
total-launch_all s [] = omega arith
total-launch_all s (f ∷ rest) = omega (arith, total-launch_all (launch s f) rest, total-launch s f)

launch_all-same :
    (s : Client) (fs : List Flight)
    → ((launch_all s fs).waiting ≡ s.waiting) × ((launch_all s fs).refreshing ≡ s.refreshing)
unfolding launch_all launch
launch_all-same s [] = (refl, refl)
launch_all-same s (f ∷ rest) = launch_all-same (launch s f) rest

reject-same :
    (s : Client) (f : Flight)
    → ((reject s f).waiting ≡ s.waiting)
      × ((reject s f).flights ≡ s.flights)
      × ((weight f ≡ 0) → (reject s f).refreshing ≡ s.refreshing)
unfolding reject
reject-same s (call n c) = (refl, refl, λ _. refl)
reject-same s (refresh c owner) =
    let (w, f, _) = reject-same (record s { refreshing = false }) owner in
    (w, f, λ e. absurd (omega arith))

-- What holds of a flight that is over and the rest of the client.
record IsLanded (s : Client) (f : Flight) : Type 0 where
  none_idle : s.refreshing ≡ false → weight f + total s.flights + total s.waiting ≡ 0
  at_most_one : weight f + total s.flights + total s.waiting ≤ 1

module _ (s : Client) (f : Flight) (h : IsLanded s f) where
  reject-IsSingle : IsSingle (reject s f)
  reject-IsSingle =
      let (w, fs, same) = reject-same s f in
      record {
        none_idle = λ e. rw (w, fs) (ground (arith, same));
        at_most_one = rw (w, fs) (omega (arith, h.at_most_one));
      }

  held-IsSingle :
      IsSingle (record s { refreshing = true; waiting = s.waiting ++ mark_retry f ∷ [] })
  held-IsSingle = record {
    none_idle = λ e'. cc;
    at_most_one =
        omega
          (arith, h.at_most_one, total-append s.waiting (mark_retry f ∷ []), weight-mark_retry f);
  }

  asked-IsSingle :
      (c : Config)
      → s.refreshing ≡ false
      → IsSingle (launch (record s { refreshing = true }) (refresh c (mark_retry f)))
  unfolding launch
  asked-IsSingle c e = record {
    none_idle = λ e'. cc;
    at_most_one = omega (
      arith,
      h.none_idle e,
      total-launch (record s { refreshing = true }) (refresh c (mark_retry f)),
      weight-mark_retry f,
    );
  }

  intercept-IsSingle : (status : Option ℕ) → IsSingle (intercept s f status)
  unfolding intercept
  intercept-IsSingle status = elim (Bool-cases (is_unauthorized status && not (retried f))) [
    | inr stop ↦ rw stop reject-IsSingle
    | inl again ↦ rw again (elim (Bool-cases s.refreshing) [
      | inl busy ↦ rw busy held-IsSingle
      | inr free ↦ rw free (asked-IsSingle (refresh_config f) free)
    ])
  ]

waiting-launch : (s : Client) (f : Flight) → (launch s f).waiting ≡ s.waiting
unfolding launch
waiting-launch s f = refl

module _ (s : Client) (c : Config) (owner : Flight) (t : String) where
  renewed : Client
  renewed = launch_all (record s { token = t; waiting = []; refreshing = false }) s.waiting

  renewed-IsSingle : IsLanded s (refresh c owner) → IsSingle (launch renewed (set_header t owner))
  unfolding renewed
  renewed-IsSingle h = record { none_idle = λ e. none_left; at_most_one = omega (arith, none_left) }
    where
      s' : Client
      s' = record s { token = t; waiting = []; refreshing = false }

      none_left :
          total (launch renewed (set_header t owner)).flights
            + total (launch renewed (set_header t owner)).waiting
          ≡ 0
      none_left = omega (
        arith,
        h.at_most_one,
        total-launch renewed (set_header t owner),
        total-launch_all s' s.waiting,
        weight-set_header t owner,
        ap total (waiting-launch renewed (set_header t owner)),
        ap total (launch_all-same s' s.waiting).0,
      )

refreshed-IsSingle :
    (s : Client) (c : Config) (owner : Flight) (status : ℕ) (t : String)
    → IsLanded s (refresh c owner)
    → IsSingle (refreshed s owner status t)
unfolding refreshed renewed
refreshed-IsSingle s c owner status t h = elim (Bool-cases (status == 200)) [
  | inr other ↦ rw other (
      reject-IsSingle s owner (record {
        none_idle = λ e. absurd (omega (arith, h.none_idle e));
        at_most_one = omega (arith, h.at_most_one);
      }))
  | inl ok ↦ rw ok (renewed-IsSingle s c owner t h)
]

receive-IsSingle :
    (s : Client) (f : Flight) (r : Response) → IsLanded s f → IsSingle (receive s f r)
unfolding receive
receive-IsSingle s (call n c) (arrived status t) h = record {
  none_idle = λ e. omega (arith, h.none_idle e);
  at_most_one = omega (arith, h.at_most_one);
}
receive-IsSingle s (refresh c owner) (arrived status t) h = refreshed-IsSingle s c owner status t h
receive-IsSingle s (call n c) (failed status) h = intercept-IsSingle s (call n c) h status
receive-IsSingle s (refresh c owner) (failed status) h =
    intercept-IsSingle s (refresh c owner) h status

Step-IsSingle : {s t : Client} → Step s t → IsSingle s → IsSingle t
unfolding start launch
Step-IsSingle (begin {s} n) h =
    let f = call n (record { captured = s.token; header = none; retry = false }) in
    record {
      none_idle = λ e. omega (arith, h.none_idle e, total-launch s f);
      at_most_one = omega (arith, h.at_most_one, total-launch s f);
    }
Step-IsSingle (write token) h = record { none_idle = h.none_idle; at_most_one = h.at_most_one }
Step-IsSingle (reply {s} before after f r e) h =
    let counted = ap total e ∙ total-append before (f ∷ after) in
    let rest = total-append before after in
    receive-IsSingle _ f r (record {
      none_idle = λ e'. omega (arith, h.none_idle e', counted, rest);
      at_most_one = omega (arith, h.at_most_one, counted, rest);
    })

-- From a state with at most one refresh under way, and with none while `isRefreshing` is false, every
-- state that is reached is such a one too, however requests start and are answered.
pub Reach-IsSingle : {s t : Client} → IsSingle s → Reach s t → IsSingle t
Reach-IsSingle h now = h
Reach-IsSingle h (next r st) = Step-IsSingle st (Reach-IsSingle h r)

pub idle-IsSingle : (token : String) → IsSingle (idle token)
idle-IsSingle token = record { none_idle = λ e. refl; at_most_one = omega arith }
