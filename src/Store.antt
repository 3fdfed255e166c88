-- ===== src/Store.antt =====
-- The Redux store: redux/auth/authSlice.ts and redux/features/walletSlice.ts.
pub mod Laws
use mpc_main.Prelude.{Bool, true, false, String, Option, List, [], ◌∷◌, Text, or_text}

-- `Omit<UserState, "password">`; a page reads the message as a condition.
pub record LoginUser : Type 0 where
  pub email : Text
  pub message : String

pub record RegisterUser : Type 0 where
  pub email : Text
  pub password : Text
  pub message : String

pub record LoginState : Type 0 where
  pub login_user : LoginUser
  pub is_fetching : Bool
  pub error : String

pub record RegisterState : Type 0 where
  pub register_user : RegisterUser
  pub is_fetching : Bool
  pub error : String

pub record AuthState : Type 0 where
  pub login : LoginState
  pub register : RegisterState
  pub access_token : String

abbrev pub initial_auth : AuthState
initial_auth = record {
  login = record {
    login_user = record { email = []; message = "" };
    is_fetching = false;
    error = "";
  };
  register = record {
    register_user = record { email = []; password = []; message = "" };
    is_fetching = false;
    error = "";
  };
  access_token = "";
}

pub data Form : Type 0 where
  login register : Form

-- The actions of the slice; a rejected thunk carries its payload, if `rejectWithValue` made one,
-- and the message of the error.
pub data AuthAction : Type 0 where
  clear_message clear_error : Form → AuthAction
  add_access_token : String → AuthAction
  remove_access_token : AuthAction
  login_pending register_pending : AuthAction
  login_fulfilled : LoginUser → AuthAction
  register_fulfilled : RegisterUser → AuthAction
  login_rejected register_rejected : Option String → Option String → AuthAction

-- `action.payload ? action.payload : action.error.message || "Có lỗi xảy ra!"`
unfoldable pub error_text : Option String → Option String → String
error_text payload message = or_text payload (or_text message "Có lỗi xảy ra!")

unfoldable pub reduce : AuthState → AuthAction → AuthState
unfolding error_text
reduce s (clear_message login) = record s {
  login = record (s.login) { login_user = record (s.login.login_user) { message = "" } };
}
reduce s (clear_message register) = record s {
  register = record (s.register) {
    register_user = record (s.register.register_user) { message = "" };
  };
}
reduce s (clear_error login) = record s { login = record (s.login) { error = "" } }
reduce s (clear_error register) = record s { register = record (s.register) { error = "" } }
reduce s (add_access_token token) = record s { access_token = token }
reduce s remove_access_token = record s { access_token = "" }
reduce s login_pending = record s { login = record (s.login) { is_fetching = true; error = "" } }
reduce s (login_fulfilled user) = record s {
  login = record { login_user = user; is_fetching = false; error = "" };
}
reduce s (login_rejected payload message) = record s {
  login = record (s.login) { is_fetching = false; error = error_text payload message };
}
reduce s register_pending = record s {
  register = record (s.register) { is_fetching = true; error = "" };
}
reduce s (register_fulfilled user) = record s {
  register = record { register_user = user; is_fetching = false; error = "" };
}
reduce s (register_rejected payload message) = record s {
  register = record (s.register) { is_fetching = false; error = error_text payload message };
}

unfoldable pub reduce_all : AuthState → List AuthAction → AuthState
reduce_all s [] = s
reduce_all s (a ∷ rest) = reduce_all (reduce s a) rest

-- walletSlice.ts
pub record WalletState : Type 0 where
  pub is_updated : Bool

abbrev pub initial_wallet : WalletState
initial_wallet = record { is_updated = false }

unfoldable pub set_wallet_updated : WalletState → Bool → WalletState
set_wallet_updated s b = record s { is_updated = b }
