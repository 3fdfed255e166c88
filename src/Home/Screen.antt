-- ===== src/Home/Screen.antt =====
-- What pages/home.tsx shows, but for the list of assets and that of transactions.
use mpc_main.Prelude.{
  ℕ, String, ◌≡◌, refl, ap, Bool, true, false, Option, none, some, List, [], ◌∷◌, ◌++◌,
  if◌then◌else◌, truthy, all,
}
use mpc_main.Views.{Item, label, icon, link, links}
use mpc_main.Routes.Menu as Menu
use mpc_main.Routes.Reached.{is_routed}
use mpc_main.Home.{greeting, name_of}

-- The user of the profile.
pub record Profile : Type 0 where
  pub full_name : Option String
  pub email : Option String
  pub avatar : Option String

-- `renderUserGreeting`, at the hour of the day; while it is loading, two gray bars.
unfoldable pub user_greeting : Bool → ℕ → Profile → List (Item (Unit {0}))
user_greeting is_loading hour p =
    if is_loading then [] else label (greeting hour) ∷ label (name_of p.full_name p.email) ∷ []

abbrev image_of : Bool → String → List (Item (Unit {0}))
image_of true image = icon image ∷ []
image_of false image = []

abbrev pub avatar_of : Bool → Option String → List (Item (Unit {0}))
avatar_of true avatar = []
avatar_of false none = []
avatar_of false (some image) = image_of (truthy image) image

abbrev pub features : List Menu.Item → List (Item (Unit {0}))
features [] = []
features (i ∷ rest) = link i.name i.link ∷ features rest

-- `balance` is the balance in đồng as it is formatted.
unfoldable pub view : Bool → ℕ → Profile → String → List (Item (Unit {0}))
view is_loading hour p balance =
    avatar_of is_loading p.avatar
    ++ (user_greeting is_loading hour p
        ++ (link "Settings" "/setting"
            ∷ ((if is_loading then [] else label balance ∷ [])
                ++ (features Menu.button_features ++ (label "Giao dịch gần đây" ∷ [])))))

links-image_of :
    (b : Bool) (image : String) (rest : List (Item (Unit {0})))
    → links (image_of b image ++ rest) ≡ links rest
links-image_of true image rest = refl
links-image_of false image rest = refl

links-avatar_of :
    (is_loading : Bool) (avatar : Option String) (rest : List (Item (Unit {0})))
    → links (avatar_of is_loading avatar ++ rest) ≡ links rest
links-avatar_of true avatar rest = refl
links-avatar_of false none rest = refl
links-avatar_of false (some image) rest = links-image_of (truthy image) image rest

-- Whatever the home page shows, loading or not, its links lead to pages that there are.
pub view-IsRouted :
    (is_loading : Bool) (hour : ℕ) (p : Profile) (balance : String)
    → all is_routed (links (view is_loading hour p balance)) ≡ true
unfolding is_routed view user_greeting
view-IsRouted true hour p balance = refl
view-IsRouted false hour p balance = ap (λ l. all is_routed l) (links-avatar_of false p.avatar _)
