-- ===== src/Business/Users.antt =====
-- pages/b2b/users.tsx: the users of a business, the filters of their list, invitations and removals.
-- `toLowerCase` is a parameter.
pub mod Laws
pub mod Screen
use mpc_main.Prelude.{
  ◌+◌, ◌-◌, String, Bool, true, false, not, ◌&&◌, ◌||◌, some, List, [], ◌∷◌, ◌++◌, str_eq, ◌==◌,
  if◌then◌else◌, keep, any, Text, units, is_empty,
}
use mpc_main.Ui.{Effect, success, failure}

pub data Role : Type 0 where
  admin member viewer : Role

pub data Status : Type 0 where
  active inactive pending : Status

-- The two roles that an invitation can give.
pub data InviteRole : Type 0 where
  as_member as_viewer : InviteRole

pub record User : Type 0 where
  pub id : String
  pub email : Text
  pub full_name : Text
  pub role : Role
  pub status : Status
  pub last_login : String
  pub created_at : String
  pub permissions : List String

-- The texts that these stand for, with which the filters are compared.
abbrev pub role_name : Role → String
role_name admin = "admin"
role_name member = "member"
role_name viewer = "viewer"

abbrev pub status_name : Status → String
status_name active = "active"
status_name inactive = "inactive"
status_name pending = "pending"

abbrev pub role_of : InviteRole → Role
role_of as_member = member
role_of as_viewer = viewer

pub record Page : Type 0 where
  pub users : List User
  pub filtered_users : List User
  pub search_term : Text
  pub role_filter : String
  pub status_filter : String
  pub is_loading : Bool
  pub show_invite_modal : Bool
  pub invite_email : Text
  pub invite_role : InviteRole

abbrev pub initial : Page
initial = record {
  users = [];
  filtered_users = [];
  search_term = [];
  role_filter = "all";
  status_filter = "all";
  is_loading = true;
  show_invite_modal = false;
  invite_email = [];
  invite_role = as_member;
}

abbrev pub mock_users : List User
mock_users =
    record {
      id = "1";
      email = units "john.doe@company.com";
      full_name = units "John Doe";
      role = admin;
      status = active;
      last_login = "2024-01-15T10:30:00Z";
      created_at = "2024-01-01T00:00:00Z";
      permissions = "wallet:read" ∷ "wallet:write" ∷ "transaction:sign" ∷ "user:manage" ∷ [];
    }
    ∷ record {
      id = "2";
      email = units "jane.smith@company.com";
      full_name = units "Jane Smith";
      role = member;
      status = active;
      last_login = "2024-01-14T15:45:00Z";
      created_at = "2024-01-05T00:00:00Z";
      permissions = "wallet:read" ∷ "transaction:sign" ∷ [];
    }
    ∷ record {
      id = "3";
      email = units "bob.wilson@company.com";
      full_name = units "Bob Wilson";
      role = viewer;
      status = active;
      last_login = "2024-01-13T09:20:00Z";
      created_at = "2024-01-10T00:00:00Z";
      permissions = "wallet:read" ∷ [];
    }
    ∷ record {
      id = "4";
      email = units "alice.johnson@company.com";
      full_name = units "Alice Johnson";
      role = member;
      status = pending;
      last_login = "";
      created_at = "2024-01-12T00:00:00Z";
      permissions = "wallet:read" ∷ "transaction:sign" ∷ [];
    }
    ∷ []

-- `text.startsWith(p)` and `text.includes(p)`.
abbrev pub starts_with : Text → Text → Bool
starts_with [] t = true
starts_with (c ∷ p) [] = false
starts_with (c ∷ p) (d ∷ t) = c == d && starts_with p t

abbrev pub includes : Text → Text → Bool
includes p [] = is_empty p
includes p (d ∷ t) = starts_with p (d ∷ t) || includes p t

abbrev pub Effects : Type 0
Effects = List (Effect (Unit {0}))

-- The timer of the first effect.
unfoldable pub fetched : Page → Page
fetched s = record s { users = mock_users; filtered_users = mock_users; is_loading = false }

module _ (to_lower : Text → Text) where
  abbrev pub found : Text → User → Bool
  found term u =
      includes (to_lower term) (to_lower u.email) || includes (to_lower term) (to_lower u.full_name)

  -- The second effect, one filter after the other.
  unfoldable pub filter_users : Page → List User
  filter_users s =
      let searched =
        if is_empty s.search_term then s.users else keep (found s.search_term) s.users in
      let by_role =
        if str_eq s.role_filter "all"
        then searched
        else keep (λ u. str_eq (role_name u.role) s.role_filter) searched in
      if str_eq s.status_filter "all"
      then by_role
      else keep (λ u. str_eq (status_name u.status) s.status_filter) by_role

-- `handleInviteUser`, with `Date.now()` and the date as texts.
unfoldable pub handle_invite_user : String → String → Page → Page × Effects
handle_invite_user now date s =
    if is_empty s.invite_email || not (any (λ c. c == b'@') s.invite_email)
    then (s, failure (some "Please enter a valid email address") ∷ [])
    else (
      record s {
        users =
            s.users
            ++ record {
              id = now;
              email = s.invite_email;
              full_name = units "Pending Invitation";
              role = role_of s.invite_role;
              status = pending;
              last_login = "";
              created_at = date;
              permissions = elim s.invite_role [
                | as_member ↦ "wallet:read" ∷ "transaction:sign" ∷ []
                | as_viewer ↦ "wallet:read" ∷ []
              ];
            }
              ∷ [];
        invite_email = [];
        invite_role = as_member;
        show_invite_modal = false;
      },
      success (some "Invitation sent successfully!") ∷ [],
    )

-- `handleDeleteUser`, with the answer to `window.confirm`.
unfoldable pub handle_delete_user : Bool → String → Page → Page × Effects
handle_delete_user confirmed user_id s =
    if confirmed
    then (
      record s { users = keep (λ u. not (str_eq u.id user_id)) s.users },
      success (some "User removed successfully") ∷ [],
    )
    else (s, [])
