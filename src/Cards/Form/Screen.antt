-- ===== src/Cards/Form/Screen.antt =====
-- What the form of pages/credit-card/pages/add-credit-card.tsx shows.
use mpc_main.Prelude.{
  ℕ, ◌≤◌, String, ◌≡◌, refl, ap, Bool, true, false, Option, none, some, List, [], ◌∷◌, ◌++◌, arith,
  length, Text,
}
use mpc_main.Views.{Item, label, shown, button, input, select, offers, IsIn}
use mpc_main.Cards.Form.{FormData, Page, Request, handle_submit, Added, finish_add}
use mpc_main.Ui.{sends}

pub data Press : Type 0 where
  submit : Press

-- The picture of the card, as it is filled in.
abbrev pub picture : FormData → List (Item Press)
picture f =
    shown f.number ∷ shown f.expiry_month ∷ shown f.expiry_year ∷ shown f.cvc ∷ shown f.name ∷ []

abbrev pub submit_button : Bool → Item Press
submit_button true = button "LoadingIcon" none
submit_button false = button "Thêm thẻ" (some submit)

-- The options are those of `months` and `years`; the inputs can be changed while a card is being added.
unfoldable pub view : List String → List String → Bool → Page → List (Item Press)
view months years is_loading s =
    picture s.form
    ++ (label "Số thẻ"
        ∷ input "1234 5678 9012 3456" s.form.number
        ∷ label "Tên chủ thẻ"
        ∷ input "Tên tài khoản" s.form.name
        ∷ label "Tháng hết hạn"
        ∷ select months ""
        ∷ label "Năm hết hạn"
        ∷ select years ""
        ∷ label "CVC"
        ∷ input "123" s.form.cvc
        ∷ submit_button is_loading
        ∷ [])

-- The page with the cards that are being added. `isLoading` of the mutation is set from its call to its
-- answer.
pub record Adding : Type 0 where
  pub page : Page
  pub sent : List FormData

abbrev pub is_loading : Adding → Bool
is_loading s = elim s.sent [ [] ↦ false | _ ∷ _ ↦ true ]

abbrev pub cards_of : List Request → List FormData
cards_of [] = []
cards_of (Request.add_card f kind ∷ rest) = f ∷ cards_of rest

module _ (card_type : Text → Option String) (months years : List String) where
  unfoldable pub submitted : ℕ → ℕ → Adding → Adding
  submitted year month s =
      let (page, effects) = handle_submit card_type year month s.page in
      record { page = page; sent = s.sent ++ cards_of (sends effects) }

  -- Runs in which the form is edited at any time and sent as the page offers it, at any date; an answer
  -- comes at any time.
  pub data Reach (s : Adding) : Adding → Type 0 where
    here : Reach s s
    edits : {t : Adding} (p : Page) → Reach s t → Reach s (record t { page = p })
    submits :
        {t : Adding} (year month : ℕ)
        → Reach s t
        → IsIn submit (offers (view months years (is_loading t) t.page))
        → Reach s (submitted year month t)
    answers :
        {t : Adding} (f : FormData) (rest : List FormData) (a : Added)
        → Reach s t
        → t.sent ≡ f ∷ rest
        → Reach s (record { page = (finish_add t.page a).0; sent = rest })

  view-submit : (l : Bool) (p : Page) → IsIn submit (offers (view months years l p)) → l ≡ false
  unfolding view
  view-submit true p h = absurd h
  view-submit false p h = refl

  sent-le :
      (year month : ℕ) (p : Page)
      → length (cards_of (sends (handle_submit card_type year month p).1)) ≤ 1
  unfolding handle_submit
  sent-le year month p = ground arith

  submits-le :
      (sent new : List FormData) (p : Page)
      → IsIn submit (offers (view months years (elim sent [ [] ↦ false | _ ∷ _ ↦ true ]) p))
      → length new ≤ 1
      → length (sent ++ new) ≤ 1
  submits-le [] new p h one = one
  submits-le (f ∷ rest) new p h one = absurd (ground (arith, view-submit true p h))

  -- From a state in which at most one card is being added, whatever is edited, and whenever the form is
  -- sent as the page offers it and answers come in, at most one card is being added.
  pub Reach-sent : {s t : Adding} → length s.sent ≤ 1 → Reach s t → length t.sent ≤ 1
  unfolding submitted
  Reach-sent h here = h
  Reach-sent h (edits p r) = Reach-sent h r
  Reach-sent h (submits {t} year month r offered) =
      submits-le t.sent _ t.page offered (sent-le year month t.page)
  Reach-sent h (answers {t} f rest a r e) =
      let one = Reach-sent h r in omega (arith, one, ap length e)
