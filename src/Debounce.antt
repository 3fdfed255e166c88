-- ===== src/Debounce.antt =====
-- hooks/useDebounce.ts: a value that follows another one once that has rested for a while. Times are
-- milliseconds.
use mpc_main.Prelude.{
  ℕ, ◌+◌, ◌≤◌, ◌<◌, ◌≡◌, refl, inl, inr, false, Option, none, some, List, [], ◌∷◌, arith, leb,
  if◌then◌else◌, Bool-cases,
}

-- The debounced value, and the timer that is set, with its value and the time at which it is due.
pub record State (T : Type 0) : Type 0 where
  pub debounced : T
  pub timer : Option (T × ℕ)

-- A new value, and the time at which it comes.
pub record Change (T : Type 0) : Type 0 where
  pub time : ℕ
  pub value : T

module _ {T : Type 0} where
  -- `useState(value)` with the timer of the first effect.
  unfoldable pub mount : ℕ → Change T → State T
  mount delay c = record { debounced = c.value; timer = some (c.value, c.time + delay) }

  -- The timer that is due fires.
  unfoldable pub elapse : ℕ → State T → State T
  elapse now s = elim (s.timer) [
    | none ↦ s
    | some (value, due) ↦ if leb due now then record { debounced = value; timer = none } else s
  ]

  -- The effect of a changed value clears the timer of before and sets its own; what was due by then
  -- has fired.
  unfoldable pub change : ℕ → State T → Change T → State T
  change delay s c = record (elapse c.time s) { timer = some (c.value, c.time + delay) }

  unfoldable pub run : ℕ → State T → List (Change T) → State T
  unfolding change
  run delay s [] = s
  run delay s (c ∷ rest) = run delay (change delay s c) rest

  -- Each change comes before the one before it has rested for the delay.
  abbrev pub IsBurst : ℕ → ℕ → List (Change T) → Type 0
  IsBurst delay start [] = Unit
  IsBurst delay start (c ∷ rest) =
      (start ≤ c.time) × (c.time < start + delay) × IsBurst delay c.time rest

  abbrev pub last_change : Change T → List (Change T) → Change T
  last_change c [] = c
  last_change c (next ∷ rest) = last_change next rest

  -- While a burst lasts the debounced value stays, and the timer is that of its last change.
  run-burst :
      (delay : ℕ) (shown : T) (c : Change T) (rest : List (Change T))
      → IsBurst delay c.time rest
      → run delay (record { debounced = shown; timer = some (c.value, c.time + delay) }) rest
        ≡ record {
          debounced = shown;
          timer = some ((last_change c rest).value, (last_change c rest).time + delay);
        }
  unfolding run change elapse
  run-burst delay shown c [] h = refl
  run-burst delay shown c (next ∷ rest) (after, soon, later) =
      let early : leb (c.time + delay) next.time ≡ false = ground arith in
      rw early (run-burst delay shown next rest later)

  -- A value that changes in a burst, each time before the delay is over, is taken over once and only
  -- in the end: until the delay after the last change the first value stays, and from then on the
  -- last one is there.
  pub burst-elapse :
      (delay : ℕ) (first : Change T) (changes : List (Change T)) (now : ℕ)
      → IsBurst delay first.time changes
      → (elapse now (run delay (mount delay first) changes)).debounced ≡ (
          if leb ((last_change first changes).time + delay) now
          then (last_change first changes).value
          else first.value)
  unfolding mount elapse
  burst-elapse delay first changes now h =
      let due = leb ((last_change first changes).time + delay) now in
      rw (run-burst delay first.value first changes h)
        (elim (Bool-cases due) [ inl fires ↦ rw fires refl | inr waits ↦ rw waits refl ])
