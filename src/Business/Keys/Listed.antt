-- ===== src/Business/Keys/Listed.antt =====
-- pages/connect-app/connect-app-list.tsx, a copy of pages/connect-app/connect-app.tsx that has its own
-- `getServiceIcon`. Its route in app.tsx is commented out.
use mpc_main.Prelude.{ℕ, String, ◌≡◌, refl, ap, List, [], ◌∷◌, ◌++◌}
use mpc_main.Views.{Item, icon, rows}
use mpc_main.Business.Services.{
  ServiceType, wallet, signing, custody, settlement, mpc_services, Tab, Icon, service_icon,
}
use mpc_main.Business.Keys.Screen.{
  Screen, Press, icon_name, keys_tab, service_card_with, dialog, tab_bar, tab_content, view,
}

-- `getServiceIcon` of the copy: nothing for a service of another type.
unfoldable pub list_icon : ServiceType → List (Item Press)
list_icon wallet = icon (icon_name Icon.shield) ∷ []
list_icon signing = icon (icon_name Icon.key) ∷ []
list_icon custody = icon (icon_name Icon.server) ∷ []
list_icon settlement = []

module _ (upper : String → String) (locale : ℕ → String) where
  abbrev pub list_content : Screen → Tab → List (Item Press)
  list_content s Tab.api_keys = keys_tab upper locale s
  list_content s Tab.services = rows (service_card_with upper locale list_icon) mpc_services

  unfoldable pub list_view : Screen → List (Item Press)
  list_view s =
      tab_bar upper locale
      ++ (list_content s s.tabs.active_tab ++ dialog upper locale s.keys.delete_key_id)

  content-eq : (s : Screen) (t : Tab) → list_content s t ≡ tab_content upper locale s t
  unfolding list_icon service_icon
  content-eq s Tab.api_keys = refl
  content-eq s Tab.services = refl

  -- The copy shows the same as the page itself, in every state: none of the services is of the type for
  -- which the two have different icons.
  pub list_view-view : (s : Screen) → list_view s ≡ view upper locale s
  unfolding list_view view
  list_view-view s =
      ap (λ l. tab_bar upper locale ++ (l ++ dialog upper locale s.keys.delete_key_id))
        (content-eq s s.tabs.active_tab)
