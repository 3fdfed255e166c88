-- ===== src/Otp/Laws.antt =====
-- How many requests a page with a code sends.
use mpc_main.Prelude.{
  ◌+◌, ◌≤◌, ◌<◌, ◌≡◌, inl, inr, true, false, List, [], ◌∷◌, arith, ◌==◌, Bool-cases, length, Text,
}
use mpc_main.Otp.{CodeEntry, Event, typed, replied, Entry, step, run}

module _ {S R B : Type 0} (c : CodeEntry S R B) where
  -- Requests wait only while the page shows that it is loading, and one at most.
  pub record IsGuarded (e : Entry S) : Type 0 where
    pub one : e.pending ≤ 1
    pub shown : 0 < e.pending → c.loading e.page ≡ true

  -- The page disables its inputs while it is loading.
  abbrev pub Disables : Type 0
  Disables = (s : S) → c.loading s ≡ true → c.disabled s ≡ true

  step-IsGuarded : Disables → (e : Entry S) (ev : Event B) → IsGuarded e → IsGuarded (step c e ev)
  unfolding step
  step-IsGuarded d e (typed v) h = elim (Bool-cases (c.disabled e.page)) [
    | inl off ↦ simp off h
    | inr on ↦ simp on (record {
      one = ground (arith, h.one, h.shown, d e.page, c.sends-change e.page v);
      shown = λ p.
          ground (arith, h.shown, d e.page, c.sends-change e.page v, c.loading-change e.page v);
    })
  ]
  step-IsGuarded d e (replied r) h = elim (Bool-cases (e.pending == 0)) [
    | inl none_left ↦ simp none_left h
    | inr some_left ↦
        simp some_left
          (record { one = omega (arith, h.one); shown = λ p. absurd (omega (arith, h.one)) })
  ]

  -- A page that disables its inputs while it is loading has at most one request under way, whatever
  -- is typed and answered, and shows that it is loading while there is one.
  pub run-IsGuarded :
      Disables → (events : List (Event B)) (e : Entry S) → IsGuarded e → IsGuarded (run c e events)
  unfolding run
  run-IsGuarded d [] e h = h
  run-IsGuarded d (ev ∷ rest) e h = run-IsGuarded d rest (step c e ev) (step-IsGuarded d e ev h)

  -- A page that never disables its inputs sends a request for each complete code: of two codes that
  -- are typed one after the other, before the first is answered, both are sent.
  pub run-double :
      ((s : S) → c.disabled s ≡ false)
      → (e : Entry S) (v w : Text) → length v ≡ 6
      → length w ≡ 6
      → ((run c e (typed v ∷ typed w ∷ [])).sent ≡ e.sent + 2)
        × ((run c e (typed v ∷ typed w ∷ [])).pending ≡ e.pending + 2)
  unfolding run step
  run-double free e v w hv hw =
      let first = free e.page in
      let second = free (c.change e.page v).0 in
      let one = c.sends-change e.page v in
      let two = c.sends-change (c.change e.page v).0 w in
      (ground (arith, first, second, one, two), ground (arith, first, second, one, two))
