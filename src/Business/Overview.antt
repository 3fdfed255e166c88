-- ===== src/Business/Overview.antt =====
-- What pages/b2b/dashboard.tsx and components/b2b/header.tsx show.
use mpc_main.Prelude.{
  ℕ, String, ◌≡◌, refl, inl, inr, Bool, true, false, none, some, List, [], ◌∷◌, ◌++◌, str_eq,
  if◌then◌else◌, Bool-cases, all,
}
use mpc_main.Views.{Item, label, icon, button, input, link, rows, offers, links}
use mpc_main.Routes.Menu as Menu
use mpc_main.Routes.Reached.{is_routed}
use mpc_main.Business.Dashboard.{
  DashboardStats, ActivityStatus, success, error, pending, RecentActivity, Dashboard, Icon, key,
  activity_icon, users, dollar, activity_icon_of, Header, Press, bell, user,
}

abbrev pub icon_name : Icon → String
icon_name key = "FiKey"
icon_name activity_icon = "FiActivity"
icon_name users = "FiUsers"
icon_name dollar = "FiDollarSign"

abbrev pub status_name : ActivityStatus → String
status_name success = "success"
status_name error = "error"
status_name pending = "pending"

-- `locale` is `toLocaleString` of a number, `date` that of a date, `show` how a number is printed, and
-- `tenths` how a number of tenths is.
module _ (locale show tenths : ℕ → String) (date : String → String) where
  abbrev pub stat_card : String → String → String → List (Item (Unit {0}))
  stat_card title number image = label title ∷ label number ∷ icon image ∷ []

  abbrev pub stats_cards : DashboardStats → List (Item (Unit {0}))
  stats_cards s =
      stat_card "Total Users" (locale s.total_users) "FiUsers"
      ++ (stat_card "Active API Keys" (show s.active_api_keys) "FiKey"
          ++ (stat_card "Monthly Requests" (locale s.monthly_requests) "FiActivity"
              ++ stat_card "Total Transactions" (locale s.total_transactions) "FiDollarSign"))

  abbrev pub revenue_card : DashboardStats → List (Item (Unit {0}))
  revenue_card s =
      label "Revenue Overview"
      ∷ label "$"
      ∷ label (locale s.revenue)
      ∷ label "Total revenue this month"
      ∷ icon "FiTrendingUp"
      ∷ label (tenths s.growth_tenths)
      ∷ []

  abbrev pub action_links : List Menu.Item → List (Item (Unit {0}))
  action_links [] = []
  action_links (i ∷ rest) = link i.name i.link ∷ action_links rest

  abbrev pub activity_row : RecentActivity → List (Item (Unit {0}))
  activity_row a =
      icon (icon_name (activity_icon_of a.type))
      ∷ label a.description
      ∷ label (date a.timestamp)
      ∷ label (status_name a.status)
      ∷ []

  -- While it is loading, the page shows gray boxes.
  unfoldable pub dashboard_view : Dashboard → List (Item (Unit {0}))
  dashboard_view d =
      if d.is_loading
      then []
      else label "Business Dashboard"
        ∷ label "Monitor your organization's MPC wallet usage and performance"
        ∷ (stats_cards d.stats
            ++ (revenue_card d.stats
                ++ (label "Quick Actions"
                    ∷ (action_links Menu.quick_actions
                        ++ (label "Recent Activity" ∷ rows activity_row d.recent_activity)))))

-- The sample notifications of the header.
pub record Notification : Type 0 where
  pub id : String
  pub title : String
  pub message : String
  pub time : String
  pub type : String

abbrev pub notifications : List Notification
notifications =
    record {
      id = "1";
      title = "New API Key Created";
      message = "A new API key was created for your organization";
      time = "2 minutes ago";
      type = "info";
    }
    ∷ record {
      id = "2";
      title = "High API Usage Alert";
      message = "You've used 80% of your monthly API quota";
      time = "1 hour ago";
      type = "warning";
    }
    ∷ record {
      id = "3";
      title = "Transaction Completed";
      message = "Successfully signed transaction: 0.5 ETH transfer";
      time = "3 hours ago";
      type = "success";
    }
    ∷ []

pub data Shade : Type 0 where
  green yellow red blue : Shade

-- `getNotificationIcon`
unfoldable pub notification_shade : String → Shade
notification_shade type =
    if str_eq type "success"
    then green
    else if str_eq type "warning"
    then yellow
    else if str_eq type "error"
    then red
    else blue

abbrev pub notification_row : Notification → List (Item Press)
notification_row n = icon "FiShield" ∷ label n.title ∷ label n.message ∷ label n.time ∷ []

abbrev pub notifications_menu : Bool → List (Item Press)
notifications_menu true =
    label "Notifications"
    ∷ (rows notification_row notifications ++ (button "View All Notifications" none ∷ []))
notifications_menu false = []

abbrev pub user_menu : Bool → List (Item Press)
user_menu true =
    label "John Doe"
    ∷ label "john.doe@company.com"
    ∷ button "Profile" none
    ∷ button "Settings" none
    ∷ button "Sign Out" none
    ∷ []
user_menu false = []

abbrev pub header_items : Bool → Bool → List (Item Press)
header_items shows_notifications shows_user =
    input "Search..." []
    ∷ button "FiBell" (some bell)
    ∷ (notifications_menu shows_notifications
        ++ (button "FiUser" (some user)
            ∷ label "John Doe"
            ∷ label "Admin"
            ∷ (user_menu shows_user
                ++ (label "Organization:"
                    ∷ label "Acme Corporation"
                    ∷ label "Professional Plan"
                    ∷ label "API Usage: 45,678 / 100,000"
                    ∷ []))))

unfoldable pub header_view : Header → List (Item Press)
header_view s = header_items s.show_notifications s.show_user_menu

header_items-offers : (a b : Bool) → offers (header_items a b) ≡ bell ∷ user ∷ []
header_items-offers true true = refl
header_items-offers true false = refl
header_items-offers false true = refl
header_items-offers false false = refl

-- Whatever menus are open, the header has only its two menus to offer: the entries for the profile, the
-- settings and signing out do nothing.
pub offers-header_view : (s : Header) → offers (header_view s) ≡ bell ∷ user ∷ []
unfolding header_view
offers-header_view s = header_items-offers s.show_notifications s.show_user_menu

module _ (locale show tenths : ℕ → String) (date : String → String) where
  rows-IsRouted :
      (l : List RecentActivity)
      → all is_routed (links (rows (activity_row locale show tenths date) l)) ≡ true
  rows-IsRouted [] = refl
  rows-IsRouted (a ∷ rest) = rows-IsRouted rest

  -- Whatever the dashboard shows, loading or not, its links lead to pages that there are.
  pub dashboard_view-IsRouted :
      (d : Dashboard) → all is_routed (links (dashboard_view locale show tenths date d)) ≡ true
  unfolding dashboard_view is_routed
  dashboard_view-IsRouted d = elim (Bool-cases d.is_loading) [
    | inl loading ↦ rw (dashboard_view, loading) refl
    | inr done ↦ rw (dashboard_view, done) (rows-IsRouted d.recent_activity)
  ]
