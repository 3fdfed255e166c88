-- ===== src/Transfer/Search.antt =====
-- pages/transfer/search_user.tsx. `toLowerCase` is a parameter; of it only that the result holds no
-- upper case letter of ASCII is used.
use mpc_main.Prelude.{
  ◌≡◌, refl, Bool, true, false, not, ◌&&◌, Option, none, some, List, [], ◌∷◌, if◌then◌else◌, Text,
  text_eq, text_eq_refl, is_empty,
}
use mpc_main.Ui.{Effect, failure, raised}
use mpc_main.Cards.Format.{trim}

-- `data` is undefined or null at first; `isLoading` is null, true or false.
pub record Page : Type 0 where
  pub receiver : Option Text
  pub is_loading : Option Bool

abbrev pub initial : Page
initial = record { receiver = none; is_loading = none }

abbrev pub Effects : Type 0
Effects = List (Effect (Unit {0}))

abbrev found : Text → Page × Effects
found v = (record { receiver = some v; is_loading = some false }, [])

-- The function that is debounced, at the address of the user's own wallet; it is missing as long as
-- the profile is, and reading it raises an error.
unfoldable pub search : Option Text → Page → Text → Page × Effects
search own s value = elim own [
  | none ↦ if is_empty (trim value) then found value else (s, raised ∷ [])
  | some address ↦
      if not (is_empty (trim value)) && text_eq value address
      then (
        record s { is_loading = some false },
        failure (some "Không thể chuyển tiền cho chính mình!") ∷ [],
      )
      else found value
]

module _ (to_lower : Text → Text) where
  -- `onChange` of the input, after the delay.
  unfoldable pub input : Option Text → Page → Text → Page × Effects
  input own s value = search own s (to_lower value)

-- `InfoUser`: a row with the receiver, a placeholder, nothing, or an exception while rendering, where
-- `props.data.address` is read of no data.
pub data View : Type 0 where
  row : Text → View
  placeholder blank crash : View

unfoldable pub view : Page → View
view s = elim s.is_loading [
  | none ↦ blank
  | some true ↦ placeholder
  | some false ↦ elim s.receiver [ none ↦ crash | some address ↦ row address ]
]

-- A click on the row, `handleSelectUser` and `handleUserData`: the receiver that is handed on.
unfoldable pub select : Page → Page × Option Text
select s = (record s { is_loading = some true }, s.receiver)

-- Whoever searches for their own address first, typed as it is stored, gets no row but an exception
-- while the page is drawn; after another search the receiver of that one stays on offer.
pub search-own :
    (s : Page) (own : Text)
    → is_empty (trim own) ≡ false
    → view (search (some own) s own).0
      ≡ elim s.receiver [ none ↦ crash | some address ↦ row address ]
unfolding search view
search-own s own full = rw (full, text_eq_refl own) refl
