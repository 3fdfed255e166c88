-- ===== src/Business/Dashboard.antt =====
-- pages/b2b/dashboard.tsx, with the sample data that it shows after a second, and the menus of
-- components/b2b/header.tsx. The growth rate is written in tenths of a percent.
use mpc_main.Prelude.{
  ℕ, String, ◌≡◌, refl, Bool, true, false, not, Option, none, some, List, [], ◌∷◌, arith, ltb,
  if◌then◌else◌,
}

pub record DashboardStats : Type 0 where
  pub total_users : ℕ
  pub active_api_keys : ℕ
  pub monthly_requests : ℕ
  pub total_transactions : ℕ
  pub revenue : ℕ
  pub growth_tenths : ℕ

pub data ActivityType : Type 0 where
  api_call transaction user_signup wallet_created : ActivityType

pub data ActivityStatus : Type 0 where
  success error pending : ActivityStatus

pub record RecentActivity : Type 0 where
  pub id : String
  pub type : ActivityType
  pub description : String
  pub timestamp : String
  pub status : ActivityStatus

pub record Dashboard : Type 0 where
  pub stats : DashboardStats
  pub recent_activity : List RecentActivity
  pub is_loading : Bool

abbrev pub initial : Dashboard
initial = record {
  stats = record {
    total_users = 0;
    active_api_keys = 0;
    monthly_requests = 0;
    total_transactions = 0;
    revenue = 0;
    growth_tenths = 0;
  };
  recent_activity = [];
  is_loading = true;
}

abbrev activity : String → ActivityType → String → String → ActivityStatus → RecentActivity
activity id type description timestamp status = record {
  id = id;
  type = type;
  description = description;
  timestamp = timestamp;
  status = status;
}

-- What the timer of the effect sets.
abbrev pub loaded : Dashboard
loaded = record {
  stats = record {
    total_users = 1250;
    active_api_keys = 8;
    monthly_requests = 45678;
    total_transactions = 8923;
    revenue = 45600;
    growth_tenths = 235;
  };
  recent_activity =
      activity "1" api_call "API call to /v1/wallets endpoint" "2024-01-15T10:30:00Z" success
      ∷ activity "2" transaction "Transaction signed: 0.5 ETH transfer" "2024-01-15T10:25:00Z"
          success
      ∷ activity "3" user_signup "New user registered: john.doe@company.com" "2024-01-15T10:20:00Z"
          success
      ∷ activity "4" wallet_created "New wallet created for organization" "2024-01-15T10:15:00Z"
          success
      ∷ [];
  is_loading = false;
}

-- The page at a time in milliseconds after it was shown.
unfoldable pub page_at : ℕ → Dashboard
page_at elapsed = if ltb elapsed 1000 then initial else loaded

-- What is shown of it: the placeholder while it is loading, or the numbers with the activity.
unfoldable pub shown : Dashboard → Option (DashboardStats × List RecentActivity)
shown s = if s.is_loading then none else some (s.stats, s.recent_activity)

pub data Colour : Type 0 where
  green red yellow : Colour

-- `getStatusColor`, at the statuses that there are.
unfoldable pub status_color : ActivityStatus → Colour
status_color success = green
status_color error = red
status_color pending = yellow

pub data Icon : Type 0 where
  key activity_icon users dollar : Icon

-- `getActivityIcon`
unfoldable pub activity_icon_of : ActivityType → Icon
activity_icon_of api_call = key
activity_icon_of transaction = activity_icon
activity_icon_of user_signup = users
activity_icon_of wallet_created = dollar

-- The header: which of its two menus is open.
pub record Header : Type 0 where
  pub show_user_menu : Bool
  pub show_notifications : Bool

abbrev pub closed : Header
closed = record { show_user_menu = false; show_notifications = false }

pub data Press : Type 0 where
  bell user : Press

unfoldable pub press : Header → Press → Header
press s bell = record s { show_notifications = not s.show_notifications }
press s user = record s { show_user_menu = not s.show_user_menu }

unfoldable pub run : Header → List Press → Header
unfolding press
run s [] = s
run s (p ∷ rest) = run (press s p) rest

abbrev is_bell : Press → Bool
is_bell bell = true
is_bell user = false

abbrev odd : (Press → Bool) → List Press → Bool
odd p [] = false
odd p (x ∷ rest) = if p x then not (odd p rest) else odd p rest

abbrev differ : Bool → Bool → Bool
differ true b = not b
differ false b = b

-- The zeros that the page starts with are never shown: what is shown, at any time, is the placeholder
-- or the whole of what was loaded.
pub shown-page_at :
    (elapsed : ℕ)
    → shown (page_at elapsed)
      ≡ (if ltb elapsed 1000 then none else some (loaded.stats, loaded.recent_activity))
unfolding shown page_at
shown-page_at elapsed = ground arith

-- Each menu of the header is switched by its own button alone: it is open after an odd number of
-- presses of that button, if it was shut.
pub run-odd :
    (s : Header) (presses : List Press)
    → ((run s presses).show_notifications ≡ differ (odd is_bell presses) s.show_notifications)
      × ((run s presses).show_user_menu
          ≡ differ (odd (λ p. not (is_bell p)) presses) s.show_user_menu)
unfolding run press
run-odd s [] = (refl, refl)
run-odd s (bell ∷ rest) =
    let (rung, opened) = run-odd (press s bell) rest in (ground (arith, rung), opened)
run-odd s (user ∷ rest) =
    let (rung, opened) = run-odd (press s user) rest in (rung, ground (arith, opened))
