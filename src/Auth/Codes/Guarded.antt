-- ===== src/Auth/Codes/Guarded.antt =====
-- The two pages that verify a code disable their boxes while a request is under way.
use mpc_main.Prelude.{String, ◌≡◌, refl, true, List, [], arith, ◌==◌, if◌then◌else◌, length, Text}
use mpc_main.Ui.{Reply, answered, threw, network, refused, Body, sends}
use mpc_main.Auth.{Request}
use mpc_main.Auth.Codes.{
  LoginCode, change_login, finish_login, RegisterCode, change_register, finish_register,
}
use mpc_main.Otp.{CodeEntry, Event, Entry, run}
use mpc_main.Otp.Laws.{IsGuarded, run-IsGuarded}

pub sends-change_login :
    (email : Text) (s : LoginCode) (v : Text)
    → length (sends (change_login email s v).1) ≡ (if length v == 6 then 1 else 0)
unfolding change_login
sends-change_login email s v = ground arith

pub loading-change_login :
    (email : Text) (s : LoginCode) (v : Text)
    → (change_login email s v).0.is_loading ≡ (if length v == 6 then true else s.is_loading)
unfolding change_login
loading-change_login email s v = ground arith

pub sends-finish_login : (s : LoginCode) (r : Reply (Body String)) → sends (finish_login s r).1 ≡ []
unfolding finish_login
sends-finish_login s (answered status body) = ground arith
sends-finish_login s (threw network) = refl
sends-finish_login s (threw (refused m)) = refl

abbrev pub login_entry : Text → CodeEntry LoginCode Request (Body String)
login_entry email = record {
  change = change_login email;
  finish = finish_login;
  loading = λ s. s.is_loading;
  disabled = λ s. s.is_loading;
  sends-change = sends-change_login email;
  sends-finish = sends-finish_login;
  loading-change = loading-change_login email;
}

pub sends-change_register :
    (email : Text) (s : RegisterCode) (v : Text)
    → length (sends (change_register email s v).1) ≡ (if length v == 6 then 1 else 0)
unfolding change_register
sends-change_register email s v = ground arith

pub loading-change_register :
    (email : Text) (s : RegisterCode) (v : Text)
    → (change_register email s v).0.is_loading ≡ (if length v == 6 then true else s.is_loading)
unfolding change_register
loading-change_register email s v = ground arith

pub sends-finish_register :
    (s : RegisterCode) (r : Reply (Body String)) → sends (finish_register s r).1 ≡ []
unfolding finish_register
sends-finish_register s (answered status body) = ground arith
sends-finish_register s (threw f) = refl

abbrev pub register_entry : Text → CodeEntry RegisterCode Request (Body String)
register_entry email = record {
  change = change_register email;
  finish = finish_register;
  loading = λ s. s.is_loading;
  disabled = λ s. s.is_loading;
  sends-change = sends-change_register email;
  sends-finish = sends-finish_register;
  loading-change = loading-change_register email;
}

-- On the page that verifies a login, from a state with at most one code under way and the page
-- loading while there is one, every state is such a one too, whatever is typed and answered.
pub login_entry-IsGuarded :
    (email : Text) (events : List (Event (Body String))) (e : Entry LoginCode)
    → IsGuarded (login_entry email) e
    → IsGuarded (login_entry email) (run (login_entry email) e events)
login_entry-IsGuarded email = run-IsGuarded (login_entry email) (λ s h. h)

-- On the page that verifies a registration, from a state with at most one code under way and the page
-- loading while there is one, every state is such a one too, whatever is typed and answered.
pub register_entry-IsGuarded :
    (email : Text) (events : List (Event (Body String))) (e : Entry RegisterCode)
    → IsGuarded (register_entry email) e
    → IsGuarded (register_entry email) (run (register_entry email) e events)
register_entry-IsGuarded email = run-IsGuarded (register_entry email) (λ s h. h)
