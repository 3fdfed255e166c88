-- ===== src/Transfer/Wizard.antt =====
-- pages/transfer/transfer.tsx with select_currency.tsx: the three steps and what they hand on. The state
-- of the second page, search_user.tsx, is that of Transfer/Search.
use mpc_main.Prelude.{
  String, ◌≡◌, refl, sym, ap, ◌∙◌, ◌≢◌, ◌↔◌, ◌⊎◌, inl, inr, true, Option, none, some, List, [], ◌∷◌,
  str_eq, eq_iff, if◌then◌else◌, Text,
}
use mpc_main.Ui.{Effect, navigate}
use mpc_main.Transfer.Search as Search

-- The currency that was chosen, with the wallet that the page spreads beside it.
pub record Chosen : Type 0 where
  pub currency : String
  pub image : String

-- The query for the profile; of its data the address of the wallet is used.
pub data Profile : Type 0 where
  loading failed : Profile
  loaded : Text → Profile

pub record Wizard : Type 0 where
  pub profile : Profile
  pub step : String
  pub currency : Option Chosen
  pub search : Search.Page
  pub user : Option (Option Text)

abbrev pub initial : Profile → Wizard
initial profile = record {
  profile = profile;
  step = "select_currency";
  currency = none;
  search = Search.initial;
  user = none;
}

abbrev pub Effects : Type 0
Effects = List (Effect (Unit {0}))

-- `handleStepTransfer`; a page that is shown anew has its first state.
unfoldable pub change_step : Wizard → String → Wizard × Effects
change_step s step = (
  record s { step = step; search = Search.initial },
  if str_eq step "home" then navigate "/" ∷ [] else [],
)

-- What is shown, or an exception while rendering.
pub data View : Type 0 where
  placeholders currencies invalid crash : View
  search_user : Search.View → View
  input_amount : Chosen → Text → View

-- The first page reads `currency[0]` once the query is over, which raises an exception where it failed.
abbrev pub first_page : Profile → View
first_page loading = placeholders
first_page failed = crash
first_page (loaded address) = currencies

-- The second page has the row of search_user.tsx in it.
abbrev pub second_page : Search.View → View
second_page Search.crash = crash
second_page v = search_user v

-- The last page reads `address` of the wallet and of the receiver, and `currency` of what was chosen.
abbrev last_page : Profile → Option Chosen → Option (Option Text) → View
last_page (loaded own) (some c) (some (some address)) = input_amount c address
last_page _ _ _ = crash

unfoldable pub view : Wizard → View
view s =
    if str_eq s.step "select_currency"
    then first_page s.profile
    else if str_eq s.step "search_user"
    then second_page (Search.view s.search)
    else if str_eq s.step "input_amount"
    then last_page s.profile s.currency s.user
    else invalid

-- What the pages call, on a click: the item of a currency, the row of a receiver, and the arrows
-- back of the second and of the third page.
pub data Click : Type 0 where
  pick_currency : Chosen → Click
  pick_user : Option Text → Click
  back_to_currency back_to_search : Click

unfoldable pub click : Wizard → Click → Wizard
unfolding change_step
click s (pick_currency c) = record (change_step s "search_user").0 { currency = some c }
click s (pick_user u) = record (change_step s "input_amount").0 { user = some u }
click s back_to_currency = (change_step s "select_currency").0
click s back_to_search = (change_step s "search_user").0

-- Which clicks the page that is shown offers.
pub data Offered (s : Wizard) : Click → Type 0 where
  pick : (c : Chosen) → view s ≡ currencies → Offered s (pick_currency c)
  receiver :
      (address : Text)
      → view s ≡ search_user (Search.row address)
      → Offered s (pick_user (some address))
  back_two : (v : Search.View) → view s ≡ search_user v → Offered s back_to_currency
  back_three : (c : Chosen) (a : Text) → view s ≡ input_amount c a → Offered s back_to_search

-- The own address, as search_user.tsx has it of the profile.
abbrev pub own_of : Profile → Option Text
own_of (loaded address) = some address
own_of _ = none

module _ (to_lower : Text → Text) where
  -- The profile is there or being fetched at first; it is answered once; on the second page one types.
  pub data Reach : Wizard → Type 0 where
    start : (p : Profile) → Reach (initial p)
    answered :
        {s : Wizard} (p : Profile)
        → Reach s
        → s.profile ≡ loading
        → Reach (record s { profile = p })
    types :
        {s : Wizard} (v : Search.View) (value : Text)
        → Reach s
        → view s ≡ search_user v
        → Reach (record s { search = (Search.input to_lower (own_of s.profile) s.search value).0 })
    next : {s : Wizard} {k : Click} → Reach s → Offered s k → Reach (click s k)

-- The second step has a profile and a currency, and the third a receiver, too.
abbrev HasChosen : Wizard → Type 0
HasChosen s =
    (str_eq s.step "select_currency" ≡ true)
    ⊎ ((own : Text) × (s.profile ≡ loaded own)
        × (c : Chosen) × (s.currency ≡ some c)
        × ((str_eq s.step "search_user" ≡ true)
            ⊎ ((a : Text) × (s.user ≡ some (some a)) × (str_eq s.step "input_amount" ≡ true))))

first_page-currencies : (p : Profile) → first_page p ≡ currencies → (own : Text) × (p ≡ loaded own)
first_page-currencies loading e = cc
first_page-currencies failed e = cc
first_page-currencies (loaded own) e = (own, refl)

first_page-search_user : (p : Profile) (v : Search.View) → first_page p ≢ search_user v
first_page-search_user loading v e = cc
first_page-search_user failed v e = cc
first_page-search_user (loaded own) v e = cc

first_page-input_amount : (p : Profile) (c : Chosen) (a : Text) → first_page p ≢ input_amount c a
first_page-input_amount loading c a e = cc
first_page-input_amount failed c a e = cc
first_page-input_amount (loaded own) c a e = cc

second_page-currencies : (v : Search.View) → second_page v ≢ currencies
second_page-currencies (Search.row t) e = cc
second_page-currencies Search.placeholder e = cc
second_page-currencies Search.blank e = cc
second_page-currencies Search.crash e = cc

first_page-crash : (p : Profile) → first_page p ≡ crash → p ≡ failed
first_page-crash loading e = cc
first_page-crash failed e = refl
first_page-crash (loaded own) e = cc

second_page-crash : (v : Search.View) → second_page v ≡ crash → v ≡ Search.crash
second_page-crash (Search.row t) e = cc
second_page-crash Search.placeholder e = cc
second_page-crash Search.blank e = cc
second_page-crash Search.crash e = refl

first_page-invalid : (p : Profile) → first_page p ≢ invalid
first_page-invalid loading e = cc
first_page-invalid failed e = cc
first_page-invalid (loaded own) e = cc

second_page-invalid : (v : Search.View) → second_page v ≢ invalid
second_page-invalid (Search.row t) e = cc
second_page-invalid Search.placeholder e = cc
second_page-invalid Search.blank e = cc
second_page-invalid Search.crash e = cc

view-first : (s : Wizard) → str_eq s.step "select_currency" ≡ true → view s ≡ first_page s.profile
unfolding view
view-first s h = rw h refl

view-second :
    (s : Wizard) → str_eq s.step "search_user" ≡ true → view s ≡ second_page (Search.view s.search)
unfolding view
view-second s h = rw ((eq_iff s.step "search_user").0 h) refl

view-third :
    (s : Wizard) (own : Text) (c : Chosen) (a : Text)
    → s.profile ≡ loaded own
    → s.currency ≡ some c
    → s.user ≡ some (some a)
    → str_eq s.step "input_amount" ≡ true
    → view s ≡ input_amount c a
unfolding view
view-third s own c a l has user h = rw ((eq_iff s.step "input_amount").0 h) (rw (l, has, user) refl)

click-HasChosen : {s : Wizard} {k : Click} → Offered s k → HasChosen s → HasChosen (click s k)
unfolding click change_step
click-HasChosen {s} (pick c e) (inl h) =
    let (own, l) = first_page-currencies s.profile (sym (view-first s h) ∙ e) in
    inr (own, l, c, refl, inl refl)
click-HasChosen (pick c e) (inr (own, l, c', has, h)) = inr (own, l, c, refl, inl refl)
click-HasChosen {s} (receiver address e) (inl h) =
    absurd (first_page-search_user s.profile _ (sym (view-first s h) ∙ e))
click-HasChosen (receiver address e) (inr (own, l, c, has, h)) =
    inr (own, l, c, has, inr (address, refl, refl))
click-HasChosen (back_two v e) h = inl refl
click-HasChosen {s} (back_three c a e) (inl h) =
    absurd (first_page-input_amount s.profile c a (sym (view-first s h) ∙ e))
click-HasChosen (back_three c a e) (inr (own, l, c', has, h)) = inr (own, l, c', has, inl refl)

answered-HasChosen :
    (s : Wizard) (p : Profile)
    → s.profile ≡ loading
    → HasChosen s
    → HasChosen (record s { profile = p })
answered-HasChosen s p e (inl h) = inl h
answered-HasChosen s p e (inr (own, l, _, _, _)) = cc

types-HasChosen : (s : Wizard) (q : Search.Page) → HasChosen s → HasChosen (record s { search = q })
types-HasChosen s q (inl h) = inl h
types-HasChosen s q (inr h) = inr h

Reach-HasChosen : (to_lower : Text → Text) {s : Wizard} → Reach to_lower s → HasChosen s
Reach-HasChosen to_lower (start p) = inl refl
Reach-HasChosen to_lower (answered {s} p r e) =
    answered-HasChosen s p e (Reach-HasChosen to_lower r)
Reach-HasChosen to_lower (types {s} v value r e) =
    types-HasChosen s (Search.input to_lower (own_of s.profile) s.search value).0
      (Reach-HasChosen to_lower r)
Reach-HasChosen to_lower (next r o) = click-HasChosen o (Reach-HasChosen to_lower r)

-- A state whose page cannot be drawn.
abbrev pub IsCrashed : Wizard → Type 0
IsCrashed s =
    ((str_eq s.step "select_currency" ≡ true) × (s.profile ≡ failed))
    ⊎ ((str_eq s.step "search_user" ≡ true) × (Search.view s.search ≡ Search.crash))

steps_differ : (step a b : String) → str_eq step a ≡ true → str_eq step b ≡ true → str_eq a b ≡ true
steps_differ step a b h k = rw ((eq_iff step a).0 h) at k

HasChosen-view : (s : Wizard) → HasChosen s → (view s ≢ invalid) × ((view s ≡ crash) ↔ IsCrashed s)
HasChosen-view s (inl h) =
    let shown = view-first s h in
    let back : IsCrashed s → view s ≡ crash = λ x. elim x [
      | inl (_, e) ↦ shown ∙ ap first_page e
      | inr (k, _) ↦ cc (steps_differ s.step "select_currency" "search_user" h k)
    ] in
    (
      λ e. first_page-invalid s.profile (sym shown ∙ e),
      (λ e. inl (h, first_page-crash s.profile (sym shown ∙ e)), back),
    )
HasChosen-view s (inr (own, l, c, has, inl h)) =
    let shown = view-second s h in
    let back : IsCrashed s → view s ≡ crash = λ x. elim x [
      | inl (k, _) ↦ cc (steps_differ s.step "search_user" "select_currency" h k)
      | inr (_, e) ↦ shown ∙ ap second_page e
    ] in
    (
      λ e. second_page-invalid (Search.view s.search) (sym shown ∙ e),
      (λ e. inr (h, second_page-crash (Search.view s.search) (sym shown ∙ e)), back),
    )
HasChosen-view s (inr (own, l, c, has, inr (a, user, h))) =
    let shown = view-third s own c a l has user h in
    let back : IsCrashed s → view s ≡ crash = λ x. elim x [
      | inl (k, _) ↦ cc (steps_differ s.step "input_amount" "select_currency" h k)
      | inr (k, _) ↦ cc (steps_differ s.step "input_amount" "search_user" h k)
    ] in
    (λ e. cc (sym shown ∙ e), (λ e. cc (sym shown ∙ e), back))

-- In whatever order the user clicks through the steps and types, with every click one that the page
-- shown then offers, and whatever the query for the profile brings: no unknown step is reached, and
-- an exception is raised while drawing exactly in two places: on the first page once the query has
-- failed, and on the second one where it has a row to draw and no receiver. So the last page always has the wallet, the currency and the receiver that it reads.
pub Reach-view :
    (to_lower : Text → Text) {s : Wizard}
    → Reach to_lower s
    → (view s ≢ invalid) × ((view s ≡ crash) ↔ IsCrashed s)
Reach-view to_lower {s} r = HasChosen-view s (Reach-HasChosen to_lower r)
