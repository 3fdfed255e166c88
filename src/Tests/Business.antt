-- ===== src/Tests/Business.antt =====
-- Runs of the pages for businesses.
use mpc_main.Prelude.{
  ◌+◌, ◌≡◌, refl, true, ◌&&◌, some, List, [], ◌∷◌, map, leb, if◌then◌else◌, Text, units,
}
use mpc_main.Business.Users
use mpc_main.Business.Users.{User, handle_invite_user, handle_delete_user, mock_users}
use mpc_main.Business.Users.Laws.{IsShown, run, run-IsShown, delete-invite}
use mpc_main.Business.Users.Laws as UserLaws
use mpc_main.Business.Keys
use mpc_main.Business.Keys.{ApiKey, shown_key}
use mpc_main.Business.Keys.Laws as KeyLaws
use mpc_main.Business.Keys.Laws.{shown_key-run}

abbrev lower : Text → Text
lower = map (λ c. if leb b'A' c && leb c b'Z' then c + 32 else c)

initial-IsShown : IsShown lower Users.initial
initial-IsShown = record { entitled = tt; exact = refl }

abbrev events : List UserLaws.Event
events =
    UserLaws.loaded
    ∷ UserLaws.searched (units "COMPANY")
    ∷ UserLaws.email_typed (units "an@mpc.vn")
    ∷ UserLaws.invited "17" "2024-02-01"
    ∷ UserLaws.deleted true "1"
    ∷ UserLaws.role_chosen "member"
    ∷ []

abbrev key : ApiKey
key = record {
  id = "1";
  name = "Key";
  key = units "sk_live";
  permissions = [];
  status = "active";
  created_at = "2024-01-15";
  last_used = "2024-06-10";
  requests_count = 0;
}

abbrev toggles : List KeyLaws.Event
toggles =
    KeyLaws.toggled "1"
    ∷ KeyLaws.toggled "2"
    ∷ KeyLaws.delete_pressed (some "2")
    ∷ KeyLaws.delete_confirmed
    ∷ KeyLaws.toggled "1"
    ∷ []

shown_key-run_example :
    shown_key (KeyLaws.run Keys.initial toggles) key ≡ map (λ c. 0x2022) (units "sk_live")
shown_key-run_example = shown_key-run Keys.initial toggles key refl
