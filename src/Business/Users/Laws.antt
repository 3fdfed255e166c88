-- ===== src/Business/Users/Laws.antt =====
-- What the list of users shows, and what an invitation leaves.
use mpc_main.Prelude.{
  String, ◌≡◌, refl, ap, ◌∙◌, inl, inr, Bool, true, false, not, ◌&&◌, ◌||◌, List, [], ◌∷◌, str_eq,
  eq_refl, ◌==◌, if◌then◌else◌, Bool-cases, keep, any, all, keep-append, keep_of_all, keep-keep,
  All, All-append, All-keep, Text, is_empty,
}
use mathlib.Core.List.{append-nil}
use mpc_main.Business.Users.{
  Role, admin, member, viewer, InviteRole, as_member, as_viewer, User, Page, role_name, status_name,
  role_of, found, fetched, filter_users, handle_invite_user, handle_delete_user,
}

-- What the page can be asked for; the identifier and the date of an invitation come with it.
pub data Event : Type 0 where
  loaded opened closed : Event
  searched : Text → Event
  role_chosen status_chosen : String → Event
  email_typed : Text → Event
  invite_role_chosen : InviteRole → Event
  invited : String → String → Event
  deleted : Bool → String → Event

-- The permissions that a role has.
abbrev pub permissions_of : Role → List String
permissions_of admin = "wallet:read" ∷ "wallet:write" ∷ "transaction:sign" ∷ "user:manage" ∷ []
permissions_of member = "wallet:read" ∷ "transaction:sign" ∷ []
permissions_of viewer = "wallet:read" ∷ []

abbrev pub IsEntitled : User → Type 0
IsEntitled u = u.permissions ≡ permissions_of u.role

-- A filter that may be off is a filter that then lets everything pass.
optional-keep :
    (off : Bool) (p : User → Bool) (xs : List User)
    → (if off then xs else keep p xs) ≡ keep (λ u. off || p u) xs
optional-keep false p xs = refl
optional-keep true p [] = refl
optional-keep true p (x ∷ xs) = ap (x ∷◌) (optional-keep true p xs)

IsEntitled-invite :
    (now date : String) (s : Page)
    → All IsEntitled s.users
    → All IsEntitled (handle_invite_user now date s).0.users
unfolding handle_invite_user
IsEntitled-invite now date s h =
    elim (Bool-cases (is_empty s.invite_email || not (any (λ c. c == b'@') s.invite_email))) [
      | inl bad ↦ rw bad h
      | inr good ↦ rw good (All-append IsEntitled s.users _ h (entitled s.invite_role, tt))
    ]
  where
    entitled :
        (r : InviteRole)
        → elim r [
          | as_member ↦ "wallet:read" ∷ "transaction:sign" ∷ []
          | as_viewer ↦ "wallet:read" ∷ []
        ]
          ≡ permissions_of (role_of r)
    entitled as_member = refl
    entitled as_viewer = refl

module _ (to_lower : Text → Text) where
  -- A user meets all three filters.
  abbrev pub meets : Page → User → Bool
  meets s u =
      (is_empty s.search_term || found to_lower s.search_term u)
      && ((str_eq s.role_filter "all" || str_eq (role_name u.role) s.role_filter)
          && (str_eq s.status_filter "all" || str_eq (status_name u.status) s.status_filter))

  abbrev pub handled : Page → Event → Page
  handled s loaded = fetched s
  handled s opened = record s { show_invite_modal = true }
  handled s closed = record s { show_invite_modal = false }
  handled s (searched t) = record s { search_term = t }
  handled s (role_chosen r) = record s { role_filter = r }
  handled s (status_chosen r) = record s { status_filter = r }
  handled s (email_typed t) = record s { invite_email = t }
  handled s (invite_role_chosen r) = record s { invite_role = r }
  handled s (invited now date) = (handle_invite_user now date s).0
  handled s (deleted confirmed id) = (handle_delete_user confirmed id s).0

  -- After every event the second effect runs.
  abbrev pub render : Page → Page
  render s = record s { filtered_users = filter_users to_lower s }

  unfoldable pub run : Page → List Event → Page
  run s [] = s
  run s (ev ∷ rest) = run (render (handled s ev)) rest

  filter_users-meets : (s : Page) → filter_users to_lower s ≡ keep (meets s) s.users
  unfolding filter_users
  filter_users-meets s =
      let p = found to_lower s.search_term in
      let q : User → Bool = λ u. str_eq (role_name u.role) s.role_filter in
      let r : User → Bool = λ u. str_eq (status_name u.status) s.status_filter in
      let a = is_empty s.search_term in
      let b = str_eq s.role_filter "all" in
      let c = str_eq s.status_filter "all" in
      optional-keep c r _
      ∙ ap (keep (λ u. c || r u))
          (optional-keep b q _ ∙ ap (keep (λ u. b || q u)) (optional-keep a p s.users))
      ∙ keep-keep (λ u. c || r u) (λ u. b || q u) (keep (λ u. a || p u) s.users)
      ∙ keep-keep (λ u. (b || q u) && (c || r u)) (λ u. a || p u) s.users

  -- The users of the page are entitled, and the list shows those that meet the filters.
  pub record IsShown (s : Page) : Type 0 where
    pub entitled : All IsEntitled s.users
    pub exact : s.filtered_users ≡ keep (meets s) s.users

  handled-IsEntitled :
      (s : Page) (ev : Event) → All IsEntitled s.users → All IsEntitled (handled s ev).users
  unfolding fetched handle_invite_user handle_delete_user
  handled-IsEntitled s loaded h = (refl, (refl, (refl, (refl, tt))))
  handled-IsEntitled s opened h = h
  handled-IsEntitled s closed h = h
  handled-IsEntitled s (searched t) h = h
  handled-IsEntitled s (role_chosen r) h = h
  handled-IsEntitled s (status_chosen r) h = h
  handled-IsEntitled s (email_typed t) h = h
  handled-IsEntitled s (invite_role_chosen r) h = h
  handled-IsEntitled s (invited now date) h = IsEntitled-invite now date s h
  handled-IsEntitled s (deleted true id) h =
      All-keep IsEntitled (λ u. not (str_eq u.id id)) s.users h
  handled-IsEntitled s (deleted false id) h = h

  -- From a page of this kind, as the first one is, whatever is searched, chosen, invited and removed,
  -- in any order, the list shows exactly the users that meet the three filters as they stand then, in
  -- the order of the users, and every user has the permissions of their role.
  pub run-IsShown : (s : Page) (events : List Event) → IsShown s → IsShown (run s events)
  unfolding run
  run-IsShown s [] h = h
  run-IsShown s (ev ∷ rest) h = run-IsShown (render (handled s ev)) rest (record {
    entitled = handled-IsEntitled s ev h.entitled;
    exact = filter_users-meets (handled s ev);
  })

-- Where no user has the identifier of an invitation, the removal of that identifier after the
-- invitation leaves the users that there were before it, be the invitation sent or refused.
pub delete-invite :
    (now date : String) (s : Page)
    → all (λ u. not (str_eq u.id now)) s.users ≡ true
    → (handle_delete_user true now (handle_invite_user now date s).0).0.users ≡ s.users
unfolding handle_delete_user handle_invite_user
delete-invite now date s fresh =
    let old = keep_of_all (λ u. not (str_eq u.id now)) s.users fresh in
    elim (Bool-cases (is_empty s.invite_email || not (any (λ c. c == b'@') s.invite_email))) [
      | inl bad ↦ rw bad old
      | inr good ↦ rw good (simp (keep-append, old, eq_refl, append-nil) refl)
    ]
