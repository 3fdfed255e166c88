-- ===== src/Business/Users/Screen.antt =====
-- What pages/b2b/users.tsx shows, and whom its buttons remove.
use mathlib.Core.Path.{subst}
use mpc_main.Prelude.{
  ℕ, String, ◌≡◌, refl, sym, ap, ◌∙◌, ◌↔◌, inl, inr, Bool, true, false, ◌&&◌, none, some, List, [],
  ◌∷◌, ◌++◌, arith, str_eq, eq_iff, if◌then◌else◌, Bool-cases, truthy, length, keep, any, Text,
}
use mpc_main.Views.{
  Item, label, shown, button, input, select, rows, offers, IsIn, offers-cases, offers_left,
}
use mpc_main.Business.Users.{
  Role, admin, member, viewer, Status, active, inactive, pending, InviteRole, as_member, as_viewer,
  User, Page, role_name, status_name,
}
use mpc_main.Business.Users.Laws.{Event, IsShown, run, run-IsShown, meets}

-- The buttons of the page.
pub data Press : Type 0 where
  invite send cancel : Press
  delete : String → Press

pub data Colour : Type 0 where
  red blue gray green yellow : Colour

-- `getRoleColor` and `getStatusColor`
unfoldable pub role_color : Role → Colour
role_color admin = red
role_color member = blue
role_color viewer = gray

unfoldable pub status_color : Status → Colour
status_color active = green
status_color inactive = red
status_color pending = yellow

abbrev pub invite_role_name : InviteRole → String
invite_role_name as_member = "member"
invite_role_name as_viewer = "viewer"

-- A user with this identifier is in the list.
abbrev pub is_member : String → List User → Bool
is_member id users = any (λ u. str_eq u.id id) users

-- `date` is `new Date(...).toLocaleDateString()`, and `show` how a number is printed.
module _ (date : String → String) (show : ℕ → String) where
  abbrev pub user_row : User → List (Item Press)
  user_row u =
      shown u.full_name
      ∷ shown u.email
      ∷ label (role_name u.role)
      ∷ label (status_name u.status)
      ∷ label (if truthy u.last_login then date u.last_login else "Never")
      ∷ button "FiEdit" none
      ∷ button "FiTrash2" (some (delete u.id))
      ∷ []

  abbrev pub head : List (Item Press)
  head =
      label "User Management"
      ∷ label "Manage your organization's team members and their permissions"
      ∷ button "Invite User" (some invite)
      ∷ []

  abbrev pub filters : Page → List (Item Press)
  filters s =
      input "Search by name or email..." s.search_term
      ∷ select ("all" ∷ "admin" ∷ "member" ∷ "viewer" ∷ []) s.role_filter
      ∷ select ("all" ∷ "active" ∷ "inactive" ∷ "pending" ∷ []) s.status_filter
      ∷ []

  abbrev pub table : List User → List (Item Press)
  table users =
      label "Users"
      ∷ label (show (length users))
      ∷ label "User"
      ∷ label "Role"
      ∷ label "Status"
      ∷ label "Last Login"
      ∷ label "Actions"
      ∷ rows user_row users

  abbrev pub invite_modal : Bool → Text → InviteRole → List (Item Press)
  invite_modal true email role =
      label "Invite New User"
      ∷ input "user@company.com" email
      ∷ select ("member" ∷ "viewer" ∷ []) (invite_role_name role)
      ∷ button "Send Invitation" (some send)
      ∷ button "Cancel" (some cancel)
      ∷ []
  invite_modal false email role = []

  abbrev pub loaded_view : Page → List (Item Press)
  loaded_view s =
      head
      ++ (filters s
          ++ (table s.filtered_users
              ++ invite_modal s.show_invite_modal s.invite_email s.invite_role))

  -- While it is loading, the page shows gray bars.
  unfoldable pub view : Page → List (Item Press)
  view s = if s.is_loading then [] else loaded_view s

  rows-delete :
      (users : List User) (id : String)
      → IsIn (delete id) (offers (rows user_row users)) ↔ (is_member id users ≡ true)
  rows-delete [] id = (λ h. elim h [ ], λ h. cc)
  rows-delete (u ∷ rest) id = (
    λ h. elim h [
      | inl e ↦ let same : id ≡ u.id = cc in ground (arith, (eq_iff u.id id).1 (sym same))
      | inr later ↦ ground (arith, (rows-delete rest id).0 later)
    ],
    λ h. elim (Bool-cases (str_eq u.id id)) [
      | inl same ↦ inl (ap delete (sym ((eq_iff u.id id).0 same)))
      | inr other ↦ inr ((rows-delete rest id).1 (ground arith))
    ],
  )

  modal-delete :
      (b : Bool) (email : Text) (role : InviteRole) (id : String)
      → ¬ IsIn (delete id) (offers (invite_modal b email role))
  modal-delete true email role id (inl e) = cc
  modal-delete true email role id (inr (inl e)) = cc
  modal-delete true email role id (inr (inr h)) = h
  modal-delete false email role id h = h

  loaded_view-delete :
      (s : Page) (id : String)
      → IsIn (delete id) (offers (loaded_view s)) ↔ (is_member id s.filtered_users ≡ true)
  loaded_view-delete s id =
      let modal = invite_modal s.show_invite_modal s.invite_email s.invite_role in
      (
        λ h. elim h [
          | inl e ↦ cc
          | inr below ↦
              elim (offers-cases (delete id) (rows user_row s.filtered_users) modal below) [
                | inl row ↦ (rows-delete s.filtered_users id).0 row
                | inr sent ↦
                    absurd (modal-delete s.show_invite_modal s.invite_email s.invite_role id sent)
              ]
        ],
        λ h. inr (
            offers_left (delete id) (rows user_row s.filtered_users) modal
              ((rows-delete s.filtered_users id).1 h)),
      )

  view-delete :
      (s : Page) (id : String)
      → s.is_loading ≡ false
      → IsIn (delete id) (offers (view s)) ↔ (is_member id s.filtered_users ≡ true)
  unfolding view
  view-delete s id done =
      let e : view s ≡ loaded_view s = rw (view, done) refl in
      let (out, back) = loaded_view-delete s id in
      (
        λ h. out (subst (λ v. IsIn (delete id) (offers v)) e h),
        λ h. subst (λ v. IsIn (delete id) (offers v)) (sym e) (back h),
      )

any-keep :
    (p q : User → Bool) (users : List User) → any p (keep q users) ≡ any (λ u. q u && p u) users
any-keep p q [] = refl
any-keep p q (u ∷ rest) = ground (arith, any-keep p q rest)

-- From a page whose list is right, as the first one is, after whatever is searched, chosen, invited
-- and removed, in any order: once it is loaded, the page has a button that removes an identifier
-- exactly if a user with it meets the three filters as they stand then.
pub run-view :
    (to_lower : Text → Text) (date : String → String) (show : ℕ → String) (s : Page)
    (events : List Event) (id : String)
    → IsShown to_lower s
    → (run to_lower s events).is_loading ≡ false
    → let t = run to_lower s events in
      IsIn (delete id) (offers (view date show t))
      ↔ (any (λ u. meets to_lower t u && str_eq u.id id) t.users ≡ true)
run-view to_lower date show s events id h done =
    let t = run to_lower s events in
    let exact = (run-IsShown to_lower s events h).exact in
    let found =
      ap (is_member id) exact ∙ any-keep (λ u. str_eq u.id id) (meets to_lower t) t.users in
    let (out, back) = view-delete date show t id done in
    (λ b. sym found ∙ out b, λ m. back (found ∙ m))
