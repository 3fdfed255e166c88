-- ===== src/Routes/Reached.antt =====
-- The pages that the handlers and the menus lead to.
use mpc_main.Prelude.{
  String, ◌≡◌, refl, Bool, true, false, Option, none, some, List, [], ◌∷◌, ◌++◌, map, arith, str_eq,
  any, all,
}
use mpc_main.Ui.{Effect, Reply, Body, answered, threw, navigate, navigate_after, network, refused}
use mpc_main.Auth.{Credentials}
use mpc_main.Auth.Thunk.{LoginBody, login_end}
use mpc_main.Auth.Codes.{
  LoginCode, RegisterCode, SecurityCode, finish_login, finish_register, finish_security,
}
use mpc_main.Auth.Recover.{Page, forgot_finish, reset_finish}
use mpc_main.Transfer.Amount.{DataSend}
use mpc_main.Transfer.Drawer as ByTransfer
use mpc_main.Transfer.Wizard.{Wizard, change_step}
use mpc_main.Payment.Confirm as ByPayment
use mpc_main.Wallet.Drawer as ByCard
use mpc_main.Routes.{routes}
use mpc_main.Routes.Menu.{sidebar_items, button_features, menu_items, quick_actions}

-- The pages that the effects lead to, at once or after a while.
abbrev pub targets : {R : Type 0} → List (Effect R) → List String
targets [] = []
targets (navigate path ∷ rest) = path ∷ targets rest
targets (navigate_after ms path ∷ rest) = path ∷ targets rest
targets (_ ∷ rest) = targets rest

-- A path that has an entry of its own.
unfoldable pub is_routed : String → Bool
is_routed path = any (λ r. elim (r.path) [ none ↦ false | some p ↦ str_eq p path ]) routes

abbrev pub IsRouted : List String → Type 0
IsRouted paths = all is_routed paths ≡ true

login_end-IsRouted :
    (user : Credentials) (r : Reply LoginBody) → IsRouted (targets (login_end user r))
unfolding is_routed login_end
login_end-IsRouted user (answered status body) = ground arith
login_end-IsRouted user (threw f) = refl

finish_login-IsRouted :
    (s : LoginCode) (r : Reply (Body String)) → IsRouted (targets (finish_login s r).1)
unfolding is_routed finish_login
finish_login-IsRouted s (answered status body) = ground arith
finish_login-IsRouted s (threw network) = refl
finish_login-IsRouted s (threw (refused m)) = refl

finish_register-IsRouted :
    (s : RegisterCode) (r : Reply (Body String)) → IsRouted (targets (finish_register s r).1)
unfolding is_routed finish_register
finish_register-IsRouted s (answered status body) = ground arith
finish_register-IsRouted s (threw f) = refl

finish_security-IsRouted :
    (s : SecurityCode) (r : Reply (Option String)) → IsRouted (targets (finish_security s r).1)
unfolding is_routed finish_security
finish_security-IsRouted s (answered status body) = ground arith
finish_security-IsRouted s (threw f) = refl

change_step-IsRouted : (s : Wizard) (step : String) → IsRouted (targets (change_step s step).1)
unfolding is_routed change_step
change_step-IsRouted s step = ground arith

forgot_finish-IsRouted :
    (s : Page) (r : Reply (Option String)) → IsRouted (targets (forgot_finish s r).1)
unfolding is_routed forgot_finish
forgot_finish-IsRouted s (answered status m) = ground arith
forgot_finish-IsRouted s (threw f) = refl

reset_finish-IsRouted :
    (s : Page) (r : Reply (Option String)) → IsRouted (targets (reset_finish s r).1)
unfolding is_routed reset_finish
reset_finish-IsRouted s (answered status m) = ground arith
reset_finish-IsRouted s (threw f) = refl

transfer-IsRouted :
    (o : DataSend) (s : ByTransfer.Drawer) (r : Reply (Option String))
    → IsRouted (targets (ByTransfer.finish o s r).1)
unfolding is_routed ByTransfer.finish
transfer-IsRouted o s (answered status none) = ground arith
transfer-IsRouted o s (answered status (some id)) = ground arith
transfer-IsRouted o s (threw network) = refl
transfer-IsRouted o s (threw (refused m)) = refl

payment-IsRouted :
    (id : String) (v : Option String) (s : ByPayment.Drawer) (r : Reply (Unit {0}))
    → IsRouted (targets (ByPayment.finish id v s r).1)
unfolding is_routed ByPayment.finish
payment-IsRouted id v s (answered status m) = ground arith
payment-IsRouted id v s (threw network) = refl
payment-IsRouted id v s (threw (refused m)) = refl

wallet-IsRouted :
    (d : Bool) (o : ByCard.Order) (s : ByCard.Drawer) (r : Reply (Option String))
    → IsRouted (targets (ByCard.finish d o s r).1)
unfolding is_routed ByCard.finish
wallet-IsRouted d o s (answered status m) = ground arith
wallet-IsRouted d o s (threw f) = refl

-- Whatever the state of a page is and whatever the server answers, the pages that the handlers lead
-- to - those of login, registration, security code and recovered password, of a transfer, a payment,
-- a deposit and a withdrawal - and those that the menus link to all have an entry in the table of
-- routes: none of them ends on the page for an unknown path.
pub targets-IsRouted :
    ((user : Credentials) (r : Reply LoginBody) → IsRouted (targets (login_end user r)))
    × ((s : LoginCode) (r : Reply (Body String)) → IsRouted (targets (finish_login s r).1))
    × ((s : RegisterCode) (r : Reply (Body String)) → IsRouted (targets (finish_register s r).1))
    × ((s : SecurityCode) (r : Reply (Option String)) → IsRouted (targets (finish_security s r).1))
    × ((s : Wizard) (step : String) → IsRouted (targets (change_step s step).1))
    × ((o : DataSend) (s : ByTransfer.Drawer) (r : Reply (Option String))
        → IsRouted (targets (ByTransfer.finish o s r).1))
    × ((id : String) (v : Option String) (s : ByPayment.Drawer) (r : Reply (Unit {0}))
        → IsRouted (targets (ByPayment.finish id v s r).1))
    × ((d : Bool) (o : ByCard.Order) (s : ByCard.Drawer) (r : Reply (Option String))
        → IsRouted (targets (ByCard.finish d o s r).1))
    × ((s : Page) (r : Reply (Option String))
        → IsRouted (targets (forgot_finish s r).1) × IsRouted (targets (reset_finish s r).1))
    × IsRouted (map (λ i. i.link) (sidebar_items ++ button_features ++ menu_items ++ quick_actions))
unfolding is_routed
targets-IsRouted = (
  login_end-IsRouted,
  finish_login-IsRouted,
  finish_register-IsRouted,
  finish_security-IsRouted,
  change_step-IsRouted,
  transfer-IsRouted,
  payment-IsRouted,
  wallet-IsRouted,
  λ s r. (forgot_finish-IsRouted s r, reset_finish-IsRouted s r),
  refl,
)
