-- ===== src/Routes/Menu.antt =====
-- The links of the menus: components/sidebar/sidebar.tsx with its tab that is marked,
-- components/b2b/sidebar.tsx, constants/index.ts, and the links of pages/b2b/dashboard.tsx.
use mpc_main.Prelude.{
  ◌≤◌, String, ◌≡◌, refl, sym, ap, ◌∙◌, inl, inr, Bool, true, not, ◌&&◌, ◌||◌, Option, none, some,
  List, [], ◌∷◌, map, arith, str_eq, eq_iff, Bool-cases, Option-cases, truthy, or_text, length,
  keep, find, all, All,
}
use mpc_main.Routes.{starts_with}

pub record Item : Type 0 where
  pub name : String
  pub link : String

abbrev item : String → String → Item
item name link = record { name = name; link = link }

-- `sidebarItems`
abbrev pub sidebar_items : List Item
sidebar_items =
    item "Trang chủ" "/"
    ∷ item "Chuyển tiền" "/transfer"
    ∷ item "Nhận tiền" "/receive-page"
    ∷ item "Thanh toán" "/option-payment"
    ∷ item "Nạp/Rút tiền" "/deposit-withdraw"
    ∷ item "Quản lý thẻ" "/credit-card"
    ∷ item "Lịch sử giao dịch" "/transaction/history"
    ∷ item "API" "/connect-app"
    ∷ item "Cài đặt" "/setting"
    ∷ []

-- `buttonFeatures`
abbrev pub button_features : List Item
button_features =
    item "Gửi" "/transfer"
    ∷ item "Nhận" "/receive-page"
    ∷ item "Quét mã" "/scan-qrcode"
    ∷ item "Nạp/Rút" "/deposit-withdraw"
    ∷ item "Lịch sử" "/transaction/history"
    ∷ []

-- `menuItems` of the business pages.
abbrev pub menu_items : List Item
menu_items =
    item "Dashboard" "/b2b/dashboard"
    ∷ item "User Management" "/b2b/users"
    ∷ item "API Keys" "/b2b/api-keys"
    ∷ item "Analytics" "/b2b/analytics"
    ∷ item "Settings" "/b2b/settings"
    ∷ []

-- The quick actions of the dashboard.
abbrev pub quick_actions : List Item
quick_actions =
    item "Manage API Keys" "/b2b/api-keys"
    ∷ item "Manage Users" "/b2b/users"
    ∷ item "View Analytics" "/b2b/analytics"
    ∷ []

-- The sidebar: the tab that is marked, and `selectedTab` of the local storage.
pub record Sidebar : Type 0 where
  pub selected : String
  pub stored : Option String

-- The initial state; `state` is the tab that the layout gives on.
unfoldable pub initial : Option String → String → Sidebar
initial stored state = record { selected = or_text stored state; stored = stored }

-- `handleSelect`
unfoldable pub handle_select : String → Sidebar → Sidebar
handle_select tab s = record { selected = tab; stored = some tab }

-- The entry of a path.
unfoldable pub tab_at : String → Option Item
tab_at path = find (λ i. str_eq i.link path) sidebar_items

-- The effect that runs with each location.
unfoldable pub arrive : String → Sidebar → Sidebar
unfolding handle_select
arrive path s = elim (tab_at path) [ none ↦ s | some i ↦ handle_select i.name s ]

-- A click on an entry marks it and leads to its path; other links lead to other paths.
pub data Event : Type 0 where
  clicked : Item → Event
  moved : String → Event

unfoldable pub step : Sidebar → Event → Sidebar
unfolding arrive handle_select
step s (clicked i) = arrive i.link (handle_select i.name s)
step s (moved path) = arrive path s

unfoldable pub run : Sidebar → List Event → Sidebar
unfolding step
run s [] = s
run s (e ∷ rest) = run (step s e) rest

-- `isActive` of the business pages.
unfoldable pub is_active : String → String → Bool
is_active pathname path = str_eq pathname path || starts_with pathname path

-- The tab that a path belongs to; for a path of no tab it is the one of before.
abbrev pub tab_of : String → String → String
tab_of path before = elim (tab_at path) [ none ↦ before | some i ↦ i.name ]

-- The path that an event leads to.
abbrev pub goes_to : Event → String
goes_to (clicked i) = i.link
goes_to (moved path) = path

-- The tab of the last path that has one.
abbrev pub last_tab : String → List Event → String
last_tab before [] = before
last_tab before (e ∷ rest) = last_tab (tab_of (goes_to e) before) rest

-- The events of which every click is on an entry of the sidebar.
abbrev pub IsListed : Event → Type 0
IsListed (clicked i) = tab_at i.link ≡ some i
IsListed (moved path) = Unit

-- A reload marks the tab that is marked; `state` is the tab that the layout gives on.
abbrev IsKept : String → Sidebar → Type 0
unfolding initial
IsKept state s = (initial s.stored state).selected ≡ s.selected

find-all :
    {A : Type 0} (p q : A → Bool) (xs : List A) (x : A)
    → find p xs ≡ some x
    → all q xs ≡ true
    → q x ≡ true
find-all p q [] x e h = cc
find-all p q (y ∷ ys) x e h = elim (Bool-cases (p y)) [
  | inl here ↦ ground (arith, e, h, here)
  | inr other ↦ find-all p q ys x (ground arith) (ground arith)
]

-- Every tab has a name.
tab_at-name : (path : String) (i : Item) → tab_at path ≡ some i → truthy i.name ≡ true
unfolding tab_at
tab_at-name path i e =
    find-all (λ j. str_eq j.link path) (λ j. truthy j.name) sidebar_items i e refl

handle_select-IsKept :
    (state tab : String) (s : Sidebar) → truthy tab ≡ true → IsKept state (handle_select tab s)
unfolding handle_select initial
handle_select-IsKept state tab s h = ground arith

arrive-tab_of :
    (state path : String) (s : Sidebar)
    → IsKept state s
    → ((arrive path s).selected ≡ tab_of path s.selected) × IsKept state (arrive path s)
unfolding arrive handle_select
arrive-tab_of state path s h = elim (Option-cases (tab_at path)) [
  | inl other ↦ rw (arrive, tab_of, other) (refl, h)
  | inr (i, here) ↦
      let kept = handle_select-IsKept state i.name s (tab_at-name path i here) in
      rw (arrive, tab_of, here) (refl, kept)
]

step-tab_of :
    (state : String) (s : Sidebar) (e : Event)
    → IsListed e
    → IsKept state s
    → ((step s e).selected ≡ tab_of (goes_to e) s.selected) × IsKept state (step s e)
unfolding step arrive handle_select
step-tab_of state s (clicked i) listed h =
    let kept =
      handle_select-IsKept state i.name (handle_select i.name s) (tab_at-name i.link i listed) in
    rw (step, arrive, tab_of, listed) (refl, kept)
step-tab_of state s (moved path) _ h = arrive-tab_of state path s h

run-tab_of :
    (state : String) (s : Sidebar) (events : List Event)
    → All IsListed events
    → IsKept state s
    → ((run s events).selected ≡ last_tab s.selected events) × IsKept state (run s events)
unfolding run
run-tab_of state s [] listed h = (refl, h)
run-tab_of state s (e ∷ rest) (listed, later) h =
    let (here, kept) = step-tab_of state s e listed h in
    let (last, done) = run-tab_of state (step s e) rest later kept in
    (last ∙ ap (λ t. last_tab t rest) here, done)

-- However one moves, by the sidebar or otherwise, from the first display of the sidebar on, with
-- whatever tab the local storage holds then: the tab that is marked is the one of the last path that
-- belongs to a tab, and before the first such path it is the stored one, or that of the layout; and
-- a reload, which reads the storage again, marks the same one.
pub run-selected :
    (stored : Option String) (state : String) (events : List Event)
    → All IsListed events
    → let s = run (initial stored state) events in
      (s.selected ≡ last_tab (or_text stored state) events)
      × ((initial s.stored state).selected ≡ s.selected)
unfolding initial
run-selected stored state events listed = run-tab_of state (initial stored state) events listed refl

starts_with-comparable :
    (s p q : String)
    → starts_with s p ≡ true
    → starts_with s q ≡ true
    → (starts_with p q || starts_with q p) ≡ true
starts_with-comparable s String.[] String.[] a b = refl
starts_with-comparable s String.[] (String.◌∷◌ d q) a b = refl
starts_with-comparable s (String.◌∷◌ c p) String.[] a b = refl
starts_with-comparable String.[] (String.◌∷◌ c p) (String.◌∷◌ d q) a b = cc
starts_with-comparable (String.◌∷◌ e s) (String.◌∷◌ c p) (String.◌∷◌ d q) a b =
    ground (arith, starts_with-comparable s p q)

starts_with_refl : (s : String) → starts_with s s ≡ true
starts_with_refl String.[] = refl
starts_with_refl (String.◌∷◌ c s) = ground (arith, starts_with_refl s)

is_active-starts_with : (s p : String) → is_active s p ≡ true → starts_with s p ≡ true
unfolding is_active
is_active-starts_with s p h = elim (Bool-cases (str_eq s p)) [
  | inl same ↦ rw (sym ((eq_iff s p).0 same)) (starts_with_refl s)
  | inr other ↦ ground (arith, other, h)
]

abbrev related : String → String → Bool
related p q = starts_with p q || starts_with q p

-- None of the paths is the beginning of another one.
abbrev apart : List String → Bool
apart [] = true
apart (p ∷ rest) = all (λ q. not (related p q)) rest && apart rest

keep-unrelated :
    (s p : String) (paths : List String)
    → is_active s p ≡ true
    → all (λ q. not (related p q)) paths ≡ true
    → keep (is_active s) paths ≡ []
keep-unrelated s p [] on h = refl
keep-unrelated s p (q ∷ rest) on h =
    let here = starts_with-comparable s p q (is_active-starts_with s p on) in
    let there = is_active-starts_with s q in ground (arith, here, there, keep-unrelated s p rest)

keep-apart :
    (s : String) (paths : List String) → apart paths ≡ true → length (keep (is_active s) paths) ≤ 1
keep-apart s [] h = omega arith
keep-apart s (p ∷ rest) h = elim (Bool-cases (is_active s p)) [
  | inl on ↦ rw (on, keep-unrelated s p rest on (ground arith)) (omega arith)
  | inr off ↦ rw off (keep-apart s rest (ground arith))
]

-- At every path at most one entry of the menu of the business pages is marked.
pub is_active-single :
    (pathname : String) → length (keep (is_active pathname) (map (λ i. i.link) menu_items)) ≤ 1
is_active-single pathname = keep-apart pathname (map (λ i. i.link) menu_items) refl
