-- ===== src/Business/Services.antt =====
-- pages/connect-app/connect-app.tsx: the list of services, the tabs, the clipboard, and the labels.
use mpc_main.Prelude.{
  ℕ, String, ◌≡◌, refl, ap, Bool, false, ◌||◌, some, List, [], ◌∷◌, map, arith, str_eq,
  if◌then◌else◌, length, Text, units,
}
use mpc_main.Ui.{Effect, success}
use mpc_main.Business.Keys.{ApiKey, Page, has, shown_key}

pub data ServiceType : Type 0 where
  wallet signing custody settlement : ServiceType

pub data ServiceStatus : Type 0 where
  running stopped maintenance : ServiceStatus

pub record MpcService : Type 0 where
  pub id : String
  pub name : String
  pub type : ServiceType
  pub status : ServiceStatus
  pub endpoint : Text
  pub description : String

abbrev pub mpc_services : List MpcService
mpc_services =
    record {
      id = "1";
      name = "Multi-Signature Wallet Service";
      type = wallet;
      status = running;
      endpoint = units "https://api.yourcompany.com/v1/mpc/wallet";
      description = "Secure multi-party computation for wallet management";
    }
    ∷ record {
      id = "2";
      name = "Transaction Signing Service";
      type = signing;
      status = running;
      endpoint = units "https://api.yourcompany.com/v1/mpc/signing";
      description = "Distributed transaction signing with threshold signatures";
    }
    ∷ record {
      id = "3";
      name = "Digital Asset Custody";
      type = custody;
      status = maintenance;
      endpoint = units "https://api.yourcompany.com/v1/mpc/custody";
      description = "Enterprise-grade digital asset custody solution";
    }
    ∷ []

-- `activeTab` and `isModalOpen`.
pub data Tab : Type 0 where
  api_keys services : Tab

pub record Shown : Type 0 where
  pub active_tab : Tab
  pub is_modal_open : Bool

abbrev pub initial : Shown
initial = record { active_tab = api_keys; is_modal_open = false }

unfoldable pub set_active_tab : Shown → Tab → Shown
set_active_tab s tab = record s { active_tab = tab }

unfoldable pub set_is_modal_open : Shown → Bool → Shown
set_is_modal_open s b = record s { is_modal_open = b }

-- `copyToClipboard`: what is written to the clipboard, and the toast.
unfoldable pub copy_to_clipboard : Text → Text × List (Effect (Unit {0}))
copy_to_clipboard text = (text, success (some "API Key đã được sao chép!") ∷ [])

pub data Colour : Type 0 where
  green red yellow gray : Colour

-- `getStatusColor`, which serves keys and services.
unfoldable pub status_color : String → Colour
status_color status =
    if str_eq status "active" || str_eq status "running"
    then green
    else if str_eq status "inactive" || str_eq status "stopped"
    then red
    else if str_eq status "suspended" || str_eq status "maintenance"
    then yellow
    else gray

pub data Icon : Type 0 where
  shield key server settings : Icon

-- `getServiceIcon`
unfoldable pub service_icon : ServiceType → Icon
service_icon wallet = shield
service_icon signing = key
service_icon custody = server
service_icon settlement = settings

abbrev bullet : ℕ → ℕ
bullet c = 0x2022

bullets : (s t : Text) → length s ≡ length t → map bullet s ≡ map bullet t
bullets [] [] h = refl
bullets [] (d ∷ t) h = ground (arith, h)
bullets (c ∷ s) [] h = ground (arith, h)
bullets (c ∷ s) (d ∷ t) h = ap (λ r. 0x2022 ∷ r) (bullets s t (ground (arith, h)))

-- The text of a hidden key tells no more than its length: two hidden keys of the same length look the
-- same. The button beside it copies the whole key all the same.
pub hidden-shown_key :
    (s : Page) (a b : ApiKey)
    → has s.visible_keys a.id ≡ false
    → has s.visible_keys b.id ≡ false
    → length a.key ≡ length b.key
    → (shown_key s a ≡ shown_key s b) × ((copy_to_clipboard a.key).0 ≡ a.key)
unfolding shown_key copy_to_clipboard
hidden-shown_key s a b hidden_a hidden_b same =
    rw (hidden_a, hidden_b) (bullets a.key b.key same, refl)
