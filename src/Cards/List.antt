-- ===== src/Cards/List.antt =====
-- The list of cards: the tags of creditCardApi.ts, by which the cache of Redux Toolkit fetches a
-- query again once a mutation invalidates one of its tags, and the deletion of
-- credit-card/index.tsx.
use mpc_main.Prelude.{
  String, ◌≡◌, refl, Bool, true, ◌||◌, Option, none, some, List, [], ◌∷◌, map, arith, str_eq,
  if◌then◌else◌, truthy, or_text, any, Text,
}
use mpc_main.Ui.{Effect, success, failure, send, sends}

pub record Card : Type 0 where
  pub id : String
  pub number : Text
  pub name : String
  pub type : String

-- `{ type: "CreditCard", id }`
abbrev pub Tag : Type 0
Tag = String

-- `providesTags` of `getCreditCards`, at `result?.data`.
unfoldable pub provides : Option (List Card) → List Tag
provides none = "LIST" ∷ []
provides (some cards) = "LIST" ∷ map (λ c. c.id) cards

pub data Mutation : Type 0 where
  add_card : Card → Mutation
  delete_card : String → Mutation

-- `invalidatesTags`
unfoldable pub invalidates : Mutation → List Tag
invalidates (add_card c) = "LIST" ∷ []
invalidates (delete_card id) = id ∷ []

-- A query is fetched again where it has a tag that is invalidated.
abbrev pub fetched_again : List Tag → List Tag → Bool
fetched_again provided invalid = any (λ t. any (λ u. str_eq u t) provided) invalid

has_id :
    (id : String) (cards : List Card)
    → any (λ u. str_eq u id) (map (λ c. c.id) cards) ≡ any (λ c. str_eq c.id id) cards
has_id id [] = refl
has_id id (c ∷ rest) = ground (arith, has_id id rest)

-- After a card is added the list is fetched again, whatever it held. After a card is deleted it is
-- fetched again exactly if it shows a card of that number (no card has the number "LIST").
pub fetched_again_lem :
    (cards : List Card) (m : Mutation)
    → fetched_again (provides (some cards)) (invalidates m) ≡ elim m [
      | add_card c ↦ true
      | delete_card id ↦ str_eq "LIST" id || any (λ c. str_eq c.id id) cards
    ]
unfolding provides invalidates
fetched_again_lem cards (add_card c) = refl
fetched_again_lem cards (delete_card id) = ground (arith, has_id id cards)

-- The page: the card that is to be deleted, once the user has confirmed it.
pub record Page : Type 0 where
  pub delete_card_id : Option String
  pub is_modal_open : Bool
  pub hovered_card_id : Option String

abbrev pub Effects : Type 0
Effects = List (Effect Mutation)

unfoldable pub handle_delete_card : Page → String → Page
handle_delete_card s id = if truthy id then record s { delete_card_id = some id } else s

unfoldable pub confirm_delete_card : Page → Page × Effects
confirm_delete_card s = elim s.delete_card_id [
  | none ↦ (s, [])
  | some id ↦ (s, if truthy id then send (delete_card id) ∷ [] else [])
]

-- The answer of the mutation: a message, if there is one, or an error, which the page shows later.
unfoldable pub finish_delete : Page → Option String → Page × Effects
finish_delete s message = (
  record s { delete_card_id = none },
  elim message [ none ↦ [] | some m ↦ if truthy m then success (some m) ∷ [] else [] ],
)

-- `deleteError` is shown once.
unfoldable pub show_delete_error : Option String → Effects
show_delete_error message = failure (some (or_text message "Xóa thẻ thất bại!")) ∷ []

pub data View : Type 0 where
  waiting no_cards nothing : View
  cards : List Card → View

unfoldable pub view : Bool → Bool → Option (List Card) → View
view is_loading is_deleting none = if is_loading || is_deleting then waiting else nothing
view is_loading is_deleting (some []) = if is_loading || is_deleting then waiting else no_cards
view is_loading is_deleting (some (c ∷ cs)) =
    if is_loading || is_deleting then waiting else cards (c ∷ cs)

-- A deletion is sent exactly for the card that was chosen, and only after the confirmation; the
-- answer, be it an error, ends the choice.
pub delete_card_lem :
    (s : Page) (id : String) (message : Option String)
    → truthy id ≡ true
    → (sends (confirm_delete_card (handle_delete_card s id)).1 ≡ delete_card id ∷ [])
      × (sends (confirm_delete_card (finish_delete (handle_delete_card s id) message).0).1 ≡ [])
unfolding handle_delete_card confirm_delete_card finish_delete
delete_card_lem s id message h = (ground arith, refl)
