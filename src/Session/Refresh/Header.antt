-- ===== src/Session/Refresh/Header.antt =====
-- Which token a request carries when it is sent again.
use mpc_main.Prelude.{
  ℕ, String, ◌≡◌, refl, sym, ap, ◌∙◌, inl, inr, true, false, not, ◌&&◌, Option, none, some, List,
  [], ◌∷◌, ◌++◌, arith, ◌==◌, Bool-cases, truthy, All, All-append,
}
use mpc_main.Session.Refresh.{
  Flight, call, refresh, Client, Response, arrived, failed, prepared, launch, launch_all,
  mark_retry, retried, is_unauthorized, refresh_config, captured_by, set_header, reject, intercept,
  refreshed, receive, start, Step, begin, write, reply, Reach, now, next,
}

abbrev pub header_of : Flight → Option String
header_of (call n c) = c.header
header_of (refresh c owner) = c.header

-- The number of the request that a flight belongs to.
abbrev pub number_of : Flight → ℕ
number_of (call n c) = n
number_of (refresh c owner) = number_of owner

-- The request carries the token that its instance captured.
abbrev IsPrepared : Flight → Type 0
IsPrepared f = truthy (captured_by f) ≡ true → header_of f ≡ some (captured_by f)

prepared-IsPrepared : (f : Flight) → IsPrepared (prepared f)
prepared-IsPrepared (call n c) = ground arith
prepared-IsPrepared (refresh c owner) = ground arith

Forall-remove :
    (P : Flight → Type 0) (before after : List Flight) (f : Flight)
    → All P (before ++ f ∷ after)
    → P f × All P (before ++ after)
Forall-remove P [] after f h = h
Forall-remove P (x ∷ before) after f h =
    let (here, rest) = Forall-remove P before after f h.1 in (here, (h.0, rest))

module _ (token : ℕ → String) where
  -- In a run, each request `n` is started while the store holds the token `token n`.
  abbrev BeginsAt : {s t : Client} → Step s t → Type 0
  BeginsAt (begin {s} n) = s.token ≡ token n
  BeginsAt (write t) = Unit
  BeginsAt (reply before after f r e) = Unit

  abbrev pub Begins : {s t : Client} → Reach s t → Type 0
  Begins now = Unit
  Begins (next r st) = BeginsAt st × Begins r

  -- A flight carries the token with which its request was started, if that is not empty.
  abbrev pub IsStamped : Flight → Type 0
  IsStamped f = truthy (token (number_of f)) ≡ true → header_of f ≡ some (token (number_of f))

  -- The instance of a flight captured the token with which its request was started, and so did those
  -- of the requests that wait for it.
  abbrev IsIssued : Flight → Type 0
  IsIssued (call n c) = c.captured ≡ token n
  IsIssued (refresh c owner) = (c.captured ≡ token (number_of owner)) × IsIssued owner

  captured_by-IsIssued : (f : Flight) → IsIssued f → captured_by f ≡ token (number_of f)
  captured_by-IsIssued (call n c) h = h
  captured_by-IsIssued (refresh c owner) h = h.0

  prepared-IsIssued : (f : Flight) → IsIssued f → IsIssued (prepared f)
  prepared-IsIssued (call n c) h = ground (arith, h)
  prepared-IsIssued (refresh c owner) h = (ground (arith, h.0), h.1)

  mark_retry-IsIssued : (f : Flight) → IsIssued f → IsIssued (mark_retry f)
  mark_retry-IsIssued (call n c) h = h
  mark_retry-IsIssued (refresh c owner) h = h

  set_header-IsIssued : (t : String) (f : Flight) → IsIssued f → IsIssued (set_header t f)
  set_header-IsIssued t (call n c) h = h
  set_header-IsIssued t (refresh c owner) h = h

  record Issued (s : Client) : Type 0 where
    pub flights : All IsIssued s.flights
    pub waiting : All IsIssued s.waiting
    pub stamped : All IsPrepared s.flights

  launch-Issued : (s : Client) (f : Flight) → IsIssued f → Issued s → Issued (launch s f)
  unfolding launch
  launch-Issued s f i h = record {
    flights = All-append IsIssued s.flights _ h.flights (prepared-IsIssued f i, tt);
    waiting = h.waiting;
    stamped = All-append IsPrepared s.flights _ h.stamped (prepared-IsPrepared f, tt);
  }

  launch_all-Issued :
      (s : Client) (fs : List Flight) → All IsIssued fs → Issued s → Issued (launch_all s fs)
  unfolding launch_all
  launch_all-Issued s [] is h = h
  launch_all-Issued s (f ∷ rest) is h =
      launch_all-Issued (launch s f) rest is.1 (launch-Issued s f is.0 h)

  reject-Issued : (s : Client) (f : Flight) → Issued s → Issued (reject s f)
  unfolding reject
  reject-Issued s (call n c) h = record {
    flights = h.flights;
    waiting = h.waiting;
    stamped = h.stamped;
  }
  reject-Issued s (refresh c owner) h =
      reject-Issued (record s { refreshing = false }) owner
        (record { flights = h.flights; waiting = h.waiting; stamped = h.stamped })

  number_of-mark_retry : (f : Flight) → number_of (mark_retry f) ≡ number_of f
  number_of-mark_retry (call n c) = refl
  number_of-mark_retry (refresh c owner) = refl

  intercept-Issued :
      (s : Client) (f : Flight) (status : Option ℕ)
      → IsIssued f
      → Issued s
      → Issued (intercept s f status)
  unfolding intercept
  intercept-Issued s f status i h = elim (Bool-cases (is_unauthorized status && not (retried f))) [
    | inr stop ↦ rw stop (reject-Issued s f h)
    | inl again ↦ rw again (elim (Bool-cases s.refreshing) [
      | inl busy ↦ simp busy (record {
        flights = h.flights;
        waiting = All-append IsIssued s.waiting _ h.waiting (mark_retry-IsIssued f i, tt);
        stamped = h.stamped;
      })
      | inr free ↦ simp free (
          launch-Issued (record s { refreshing = true }) (refresh (refresh_config f) (mark_retry f))
            (
              captured_by-IsIssued f i ∙ ap token (sym (number_of-mark_retry f)),
              mark_retry-IsIssued f i,
            )
            (record { flights = h.flights; waiting = h.waiting; stamped = h.stamped }))
    ])
  ]

  receive-Issued :
      (s : Client) (f : Flight) (r : Response) → IsIssued f → Issued s → Issued (receive s f r)
  unfolding receive refreshed
  receive-Issued s (call n c) (arrived status t) i h = record {
    flights = h.flights;
    waiting = h.waiting;
    stamped = h.stamped;
  }
  receive-Issued s (refresh c owner) (arrived status t) i h = elim (Bool-cases (status == 200)) [
    | inr other ↦ rw other (reject-Issued s owner h)
    | inl ok ↦ rw ok (
        let s' : Client = record s { token = t; waiting = []; refreshing = false } in
        launch-Issued (launch_all s' s.waiting) (set_header t owner)
          (set_header-IsIssued t owner i.1)
          (launch_all-Issued s' s.waiting h.waiting
            (record { flights = h.flights; waiting = tt; stamped = h.stamped })))
  ]
  receive-Issued s (call n c) (failed status) i h = intercept-Issued s (call n c) status i h
  receive-Issued s (refresh c owner) (failed status) i h =
      intercept-Issued s (refresh c owner) status i h

  Step-Issued : {s t : Client} (st : Step s t) → BeginsAt st → Issued s → Issued t
  unfolding start
  Step-Issued (begin {s} n) b h =
      launch-Issued s (call n (record { captured = s.token; header = none; retry = false })) b h
  Step-Issued (write t) b h = record {
    flights = h.flights;
    waiting = h.waiting;
    stamped = h.stamped;
  }
  Step-Issued (reply {s} before after f r e) b h =
      let flights : All IsIssued (before ++ f ∷ after) = rw e at h.flights in
      let stamped : All IsPrepared (before ++ f ∷ after) = rw e at h.stamped in
      let (i, others) = Forall-remove IsIssued before after f flights in
      receive-Issued _ f r i (record {
        flights = others;
        waiting = h.waiting;
        stamped = (Forall-remove IsPrepared before after f stamped).1;
      })

  Reach-Issued : {s t : Client} (r : Reach s t) → Begins r → Issued s → Issued t
  Reach-Issued now b h = h
  Reach-Issued (next r st) b h = Step-Issued st b.0 (Reach-Issued r b.1 h)

  All-IsStamped : (fs : List Flight) → All IsIssued fs → All IsPrepared fs → All IsStamped fs
  All-IsStamped [] i p = tt
  All-IsStamped (f ∷ rest) i p =
      (rw (captured_by-IsIssued f i.0) at p.0, All-IsStamped rest i.1 p.1)

  -- Where nothing is in flight or held back at first, and each request `n` is started while the store
  -- holds the token `token n`: in every state that is reached, each request in flight, the refreshes
  -- that requests wait for included, carries the token with which its request was started, if that
  -- is not empty. So a request that is sent again after a refresh carries the token that was refused,
  -- whatever token the store holds by then.
  pub Reach-IsStamped :
      {s t : Client} (r : Reach s t)
      → s.flights ≡ []
      → s.waiting ≡ []
      → Begins r
      → All IsStamped t.flights
  Reach-IsStamped {s} r flights waiting b =
      let h =
        Reach-Issued r b
          (record { flights = rw flights tt; waiting = rw waiting tt; stamped = rw flights tt }) in
      All-IsStamped _ h.flights h.stamped
