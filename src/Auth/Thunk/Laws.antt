-- ===== src/Auth/Thunk/Laws.antt =====
-- What a login and a registration leave behind.
use mpc_main.Prelude.{
  String, ◌≡◌, refl, ◌↔◌, inl, inr, true, false, Option, none, some, List, [], ◌∷◌, arith, ◌==◌,
  if◌then◌else◌, Bool-cases, Option-cases, truthy, or_text, Text, text_eq,
}
use mpc_main.Store.{AuthState, reduce_all, reduce, error_text}
use mpc_main.Ui.{Reply, answered, threw, visits, network, refused}
use mpc_main.Auth.{Credentials}
use mpc_main.Auth.Thunk.{
  LoginBody, shown, share_key, login_end, register_end, settle, get_item, set_items,
}

-- The token that an answer to a login brings: that of the payload of a 200, which is empty where it is
-- missing.
abbrev pub token_in : Reply LoginBody → Option String
token_in (answered status body) =
    if status == 200 then elim (body.payload) [ none ↦ none | some t ↦ some (shown t) ] else none
token_in (threw failure) = none

-- The store with the token and the user of an answer that brings a token, or with its old token and
-- an error that the form shows.
abbrev pub Concluded : Option String → Credentials → AuthState → AuthState → Type 0
Concluded (some token) user s t =
    (t.access_token ≡ token) × (t.login.login_user.email ≡ user.email) × (t.login.error ≡ "")
Concluded none user s t = (t.access_token ≡ s.access_token) × (truthy t.login.error ≡ true)

full_text : (o : Option String) (m : String) → truthy m ≡ true → truthy (or_text o m) ≡ true
full_text none m h = h
full_text (some t) m h = elim (Bool-cases (truthy t)) [
  | inl full ↦ rw full full
  | inr blank ↦ rw blank h
]

-- After the answer to a login, whatever it is, no login is pending any more. The store has the
-- token of the answer, or an empty one where that is missing, and its user if the answer is a 200 with a
-- payload, and otherwise the token that it had and an error that is shown.
pub login_end_lem :
    (user : Credentials) (r : Reply LoginBody) (s : AuthState)
    → ((settle s (login_end user r)).login.is_fetching ≡ false)
      × Concluded (token_in r) user s (settle s (login_end user r))
unfolding login_end settle reduce_all reduce error_text
login_end_lem user (threw network) s = (refl, (refl, refl))
login_end_lem user (threw (refused m)) s =
    (refl, (refl, full_text (some (or_text m "Đăng nhập thất bại!")) _ refl))
login_end_lem user (answered status body) s = elim (Bool-cases (status == 200)) [
  | inr other ↦ rw other (refl, (refl, full_text body.message _ refl))
  | inl ok ↦ rw ok (elim (Option-cases body.payload) [
    | inl missing ↦ simp missing (refl, (refl, refl))
    | inr (token, found) ↦ simp found (refl, (refl, refl, refl))
  ])
]

-- A login leads to the home page exactly on a 200: also on one without a token, where the login
-- form has an error to show.
pub login_end-visits :
    (user : Credentials) (r : Reply LoginBody)
    → (visits (login_end user r) ≡ "/" ∷ []) ↔ ((body : LoginBody) × (r ≡ answered 200 body))
unfolding login_end
login_end-visits user (threw failure) = (λ h. cc, λ h. cc)
login_end-visits user (answered status body) = (λ h. (body, ground arith), λ h. ground arith)

text_eq-share_key : (a b : Text) → text_eq (share_key a) (share_key b) ≡ text_eq a b
unfolding share_key text_eq
text_eq-share_key a b = refl

-- A registration that is answered with 200 and a payload keeps the share of the key under the number
-- of its user, where it is read back; the share of every other user is as it was.
pub get_item-register_end :
    (user : Credentials) (id other : Text) (message : Option String) (share : String)
    (m : List (Text × String))
    → get_item (share_key other) (
        set_items
          (register_end user
            (answered 200 (record { message = message; payload = some (id, share) })))
          m)
      ≡ (if text_eq id other then some share else get_item (share_key other) m)
unfolding register_end set_items get_item
get_item-register_end user id other message share m = rw (text_eq-share_key id other) refl
