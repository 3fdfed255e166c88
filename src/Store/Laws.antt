-- ===== src/Store/Laws.antt =====
-- What the reducer keeps, whatever is dispatched.
use mpc_main.Prelude.{
  ◌≡◌, refl, inl, inr, Bool, true, false, String, Option, none, some, List, [], ◌∷◌, arith, truthy,
  or_text, Bool-cases, if◌then◌else◌,
}
use mpc_main.Store.{
  login, register, AuthState, AuthAction, clear_message, clear_error, add_access_token,
  remove_access_token, login_pending, register_pending, login_fulfilled, register_fulfilled,
  login_rejected, register_rejected, reduce, reduce_all,
}

-- While a request is pending no error of an earlier one is shown.
pub record IsClean (s : AuthState) : Type 0 where
  pub login_clean : s.login.is_fetching ≡ true → s.login.error ≡ ""
  pub register_clean : s.register.is_fetching ≡ true → s.register.error ≡ ""

pub reduce-IsClean : (s : AuthState) (a : AuthAction) → IsClean s → IsClean (reduce s a)
unfolding reduce
reduce-IsClean s (clear_message login) h = ground arith
reduce-IsClean s (clear_message register) h = ground arith
reduce-IsClean s (clear_error login) h = ground arith
reduce-IsClean s (clear_error register) h = ground arith
reduce-IsClean s a h = ground arith

-- From a state where no form shows an error while its request is pending, as the initial one is, this
-- holds after any sequence of actions.
pub reduce_all-IsClean :
    (s : AuthState) (actions : List AuthAction) → IsClean s → IsClean (reduce_all s actions)
unfolding reduce_all
reduce_all-IsClean s [] h = h
reduce_all-IsClean s (a ∷ rest) h = reduce_all-IsClean (reduce s a) rest (reduce-IsClean s a h)

-- The last token that was set, if it was not removed since.
abbrev pub last_token : String → List AuthAction → String
last_token token [] = token
last_token token (add_access_token t ∷ rest) = last_token t rest
last_token token (remove_access_token ∷ rest) = last_token "" rest
last_token token (_ ∷ rest) = last_token token rest

-- After any sequence of actions the access token of the store is the one that was added last, or
-- empty if it was removed since: no other action touches it.
pub reduce_all-access_token :
    (s : AuthState) (actions : List AuthAction)
    → (reduce_all s actions).access_token ≡ last_token s.access_token actions
unfolding reduce_all reduce
reduce_all-access_token s [] = refl
reduce_all-access_token s (add_access_token t ∷ rest) =
    reduce_all-access_token (reduce s (add_access_token t)) rest
reduce_all-access_token s (remove_access_token ∷ rest) =
    reduce_all-access_token (reduce s remove_access_token) rest
reduce_all-access_token s (clear_message login ∷ rest) =
    reduce_all-access_token (reduce s (clear_message login)) rest
reduce_all-access_token s (clear_message register ∷ rest) =
    reduce_all-access_token (reduce s (clear_message register)) rest
reduce_all-access_token s (clear_error login ∷ rest) =
    reduce_all-access_token (reduce s (clear_error login)) rest
reduce_all-access_token s (clear_error register ∷ rest) =
    reduce_all-access_token (reduce s (clear_error register)) rest
reduce_all-access_token s (a ∷ rest) = reduce_all-access_token (reduce s a) rest

-- The actions of the registration form.
abbrev pub is_register : AuthAction → Bool
is_register (clear_message register) = true
is_register (clear_error register) = true
is_register register_pending = true
is_register (register_fulfilled _) = true
is_register (register_rejected _ _) = true
is_register _ = false

-- An action of the registration form leaves the login form and the token as they were, and every
-- other action leaves the registration form as it was.
pub reduce-separate :
    (s : AuthState) (a : AuthAction)
    → (if is_register a
        then ((reduce s a).login ≡ s.login) × ((reduce s a).access_token ≡ s.access_token)
        else ((reduce s a).register ≡ s.register) × Unit)
unfolding reduce
reduce-separate s (clear_message login) = (refl, tt)
reduce-separate s (clear_message register) = (refl, refl)
reduce-separate s (clear_error login) = (refl, tt)
reduce-separate s (clear_error register) = (refl, refl)
reduce-separate s (add_access_token t) = (refl, tt)
reduce-separate s remove_access_token = (refl, tt)
reduce-separate s login_pending = (refl, tt)
reduce-separate s (login_fulfilled u) = (refl, tt)
reduce-separate s (login_rejected p m) = (refl, tt)
reduce-separate s register_pending = (refl, refl)
reduce-separate s (register_fulfilled u) = (refl, refl)
reduce-separate s (register_rejected p m) = (refl, refl)

or_text-truthy :
    (o : Option String) (fallback : String)
    → truthy fallback ≡ true
    → truthy (or_text o fallback) ≡ true
or_text-truthy none fallback h = h
or_text-truthy (some s) fallback h = elim (Bool-cases (truthy s)) [
  | inl full ↦ rw full full
  | inr empty ↦ rw empty h
]

-- A rejected thunk always ends the pending request of its form and leaves a message that is shown
-- (a text that is not empty), whatever the payload and the error were.
pub rejected-message :
    (s : AuthState) (payload message : Option String)
    → ((reduce s (login_rejected payload message)).login.is_fetching ≡ false)
      × (truthy (reduce s (login_rejected payload message)).login.error ≡ true)
      × ((reduce s (register_rejected payload message)).register.is_fetching ≡ false)
      × (truthy (reduce s (register_rejected payload message)).register.error ≡ true)
unfolding reduce
rejected-message s payload message =
    let shown = or_text-truthy payload _ (or_text-truthy message "Có lỗi xảy ra!" refl) in
    (refl, shown, refl, shown)
