-- ===== src/Business/Keys/Screen.antt =====
-- What pages/connect-app/connect-app.tsx shows, and what its buttons do.
use mpc_main.Prelude.{
  ℕ, String, Bool, true, false, Option, none, some, List, [], ◌∷◌, ◌++◌, str_eq, if◌then◌else◌,
  truthy, Text,
}
use mpc_main.Views.{Item, label, shown, icon, button, labels, rows}
use mpc_main.Business.Keys.{
  ApiKey, Page, Effects, has, toggle_key_visibility, handle_delete_key, confirm_delete_key,
  shown_key,
}
use mpc_main.Business.Keys as Keys
use mpc_main.Business.Services.{
  ServiceType, wallet, signing, custody, settlement, ServiceStatus, running, stopped, maintenance,
  MpcService, mpc_services, Tab, Shown, set_active_tab, set_is_modal_open, copy_to_clipboard, Icon,
  shield, key, server, settings, service_icon,
}
use mpc_main.Business.Services as Services

-- The whole state of the page.
pub record Screen : Type 0 where
  pub keys : Page
  pub tabs : Shown
  pub hovered_key_id : Option String

abbrev pub initial : Screen
initial = record { keys = Keys.initial; tabs = Services.initial; hovered_key_id = none }

-- What the buttons, and the mouse over a key, call.
pub data Press : Type 0 where
  tab : Tab → Press
  toggle delete : String → Press
  copy : Text → Press
  create confirm cancel : Press
  hover : Option String → Press

-- What a press writes to the clipboard, if anything, stands beside the effects.
unfoldable pub press : Screen → Press → Screen × Option Text × Effects
press s (tab t) = (record s { tabs = set_active_tab s.tabs t }, none, [])
press s (toggle id) = (record s { keys = toggle_key_visibility s.keys id }, none, [])
press s (delete id) = (record s { keys = handle_delete_key s.keys (some id) }, none, [])
press s (copy text) = let (written, effects) = copy_to_clipboard text in (s, some written, effects)
press s create = (record s { tabs = set_is_modal_open s.tabs true }, none, [])
press s confirm =
    let (keys, effects) = confirm_delete_key s.keys in (record s { keys = keys }, none, effects)
press s cancel = (record s { keys = handle_delete_key s.keys none }, none, [])
press s (hover id) = (record s { hovered_key_id = id }, none, [])

abbrev pub type_name : ServiceType → String
type_name wallet = "wallet"
type_name signing = "signing"
type_name custody = "custody"
type_name settlement = "settlement"

abbrev pub status_name : ServiceStatus → String
status_name running = "running"
status_name stopped = "stopped"
status_name maintenance = "maintenance"

abbrev pub icon_name : Icon → String
icon_name shield = "FiShield"
icon_name key = "FiKey"
icon_name server = "FiServer"
icon_name settings = "FiSettings"

-- Whether the bin beside a key can be seen; it can be pressed all the same.
unfoldable pub bin_shown : Screen → ApiKey → Bool
bin_shown s k = elim s.hovered_key_id [ none ↦ false | some id ↦ str_eq id k.id ]

-- `upper` is `toUpperCase`, and `locale` is `toLocaleString`.
module _ (upper : String → String) (locale : ℕ → String) where
  abbrev pub key_row : Screen → ApiKey → List (Item Press)
  key_row s k =
      label k.name
      ∷ label (upper k.status)
      ∷ shown (shown_key s.keys k)
      ∷ button (if has s.keys.visible_keys k.id then "FiEyeOff" else "FiEye") (some (toggle k.id))
      ∷ button "FiCopy" (some (copy k.key))
      ∷ label "Tạo ngày:"
      ∷ label k.created_at
      ∷ label "Sử dụng lần cuối:"
      ∷ label k.last_used
      ∷ label "Số requests:"
      ∷ label (locale k.requests_count)
      ∷ (labels k.permissions ++ (button "FiTrash2" (some (delete k.id)) ∷ []))

  abbrev pub key_list : Screen → List ApiKey → List (Item Press)
  key_list s [] = icon "FiKey" ∷ label "Chưa có API key nào được tạo!" ∷ []
  key_list s (k ∷ rest) = rows (key_row s) (k ∷ rest)

  abbrev pub keys_tab : Screen → List (Item Press)
  keys_tab s = key_list s s.keys.api_keys ++ (button "Tạo API Key mới" (some create) ∷ [])

  -- A card of a service, with the icon that its page has for it.
  abbrev pub service_card_with : (ServiceType → List (Item Press)) → MpcService → List (Item Press)
  service_card_with image v =
      image v.type
      ++ (label v.name
          ∷ label (type_name v.type)
          ∷ label (upper (status_name v.status))
          ∷ label v.description
          ∷ shown v.endpoint
          ∷ button "FiCopy" (some (copy v.endpoint))
          ∷ button "Cấu hình" none
          ∷ button "Logs" none
          ∷ [])

  abbrev pub service_card : MpcService → List (Item Press)
  service_card v = service_card_with (λ type. icon (icon_name (service_icon type)) ∷ []) v

  -- The dialog that asks before a deletion, shown while `deleteKeyId` is set.
  abbrev pub asked : Bool → List (Item Press)
  asked true =
      label "Xác nhận xóa API Key"
      ∷ label "Bạn có chắc chắn muốn xóa API Key này? Hành động này không thể hoàn tác."
      ∷ button "Xóa" (some confirm)
      ∷ button "Hủy" (some cancel)
      ∷ []
  asked false = []

  abbrev pub dialog : Option String → List (Item Press)
  dialog none = []
  dialog (some id) = asked (truthy id)

  abbrev pub tab_bar : List (Item Press)
  tab_bar =
      label "API Management"
      ∷ label "Quản lý API keys và MPC services cho doanh nghiệp của bạn"
      ∷ button "API Keys" (some (tab Tab.api_keys))
      ∷ button "MPC Services" (some (tab Tab.services))
      ∷ []

  abbrev pub tab_content : Screen → Tab → List (Item Press)
  tab_content s Tab.api_keys = keys_tab s
  tab_content s Tab.services = rows service_card mpc_services

  unfoldable pub view : Screen → List (Item Press)
  view s = tab_bar ++ (tab_content s s.tabs.active_tab ++ dialog s.keys.delete_key_id)
