-- ===== src/Auth/Screen/Single.antt =====
-- No form is sent twice: what login.tsx and register.tsx can have on its way.
use mathlib.Core.Path.{subst}
use mpc_main.Prelude.{
  ◌≡◌, refl, sym, ◌∙◌, ◌⊎◌, inl, inr, Bool, true, false, List, [], ◌∷◌, ◌++◌, arith, Bool-cases,
  Option-cases, text_eq,
}
use mpc_main.Views.{offers, IsIn}
use mpc_main.Store.{AuthState, Form, clear_error, clear_message, reduce, reduce_all}
use mpc_main.Ui.{Reply, answered, threw}
use mpc_main.Auth.{Credentials}
use mpc_main.Auth.Thunk.{
  LoginBody, SignupBody, login_begin, login_end, register_begin, register_end, settle,
}
use mpc_main.Auth.Entrance.{Fields, handle_login, register_submit}
use mpc_main.Validation.Email.{email_valid}
use mpc_main.Validation.Password.{validate_password}
use mpc_main.Auth.Screen.{
  submit, login_view, register_view, Entrance, login_sent, signup_sent, login_answered,
  signup_answered, cleared,
}

-- Runs in which a form is sent only as its page offers it, at any time and whatever is typed; answers
-- come at any time, in any order.
pub data Reach (s : Entrance) : Entrance → Type 0 where
  here : Reach s s
  types :
      {t : Entrance} (u : Credentials) (f : Fields)
      → Reach s t
      → Reach s (record t { user = u; fields = f })
  logs_in :
      {t : Entrance} (visible : Bool)
      → Reach s t
      → IsIn submit (offers (login_view t.store.login.is_fetching visible t.user))
      → Reach s (login_sent t)
  signs_up :
      {t : Entrance} (visible confirm_visible : Bool)
      → Reach s t
      → IsIn submit
          (offers (register_view t.store.register.is_fetching visible confirm_visible t.fields))
      → Reach s (signup_sent t)
  login_answer :
      {t : Entrance} (before after : List Credentials) (u : Credentials) (r : Reply LoginBody)
      → Reach s t
      → t.logins ≡ before ++ u ∷ after
      → Reach s (login_answered t u (before ++ after) r)
  signup_answer :
      {t : Entrance} (before after : List Credentials) (u : Credentials) (r : Reply SignupBody)
      → Reach s t
      → t.signups ≡ before ++ u ∷ after
      → Reach s (signup_answered t u (before ++ after) r)
  clears_error : {t : Entrance} (f : Form) → Reach s t → Reach s (cleared t (clear_error f))
  clears_message : {t : Entrance} (f : Form) → Reach s t → Reach s (cleared t (clear_message f))

-- A flag that is set exactly while one request is on its way, and no more than one is.
abbrev pub IsSingle : Bool → List Credentials → Type 0
IsSingle is_fetching flights =
    ((is_fetching ≡ false) × (flights ≡ []))
    ⊎ ((is_fetching ≡ true) × ((u : Credentials) × (flights ≡ u ∷ [])))

pub record IsCalm (s : Entrance) : Type 0 where
  pub one_login : IsSingle s.store.login.is_fetching s.logins
  pub one_signup : IsSingle s.store.register.is_fetching s.signups

-- A page that is fetching does not offer to send its form.
login_view-fetching :
    (visible : Bool) (u : Credentials) → ¬ IsIn submit (offers (login_view true visible u))
unfolding login_view
login_view-fetching visible u (inl e) = cc
login_view-fetching visible u (inr h) = h

register_view-fetching :
    (v w : Bool) (f : Fields) → ¬ IsIn submit (offers (register_view true v w f))
unfolding register_view
register_view-fetching v w f (inl e) = cc
register_view-fetching v w f (inr (inl e)) = cc
register_view-fetching v w f (inr (inr h)) = h

login_sent-IsSingle :
    (s : Entrance)
    → s.store.login.is_fetching ≡ false
    → s.logins ≡ []
    → IsSingle (login_sent s).store.login.is_fetching (login_sent s).logins
unfolding login_sent handle_login login_begin settle reduce_all reduce
login_sent-IsSingle s idle none_sent = elim (Bool-cases (email_valid s.user.email)) [
  | inl ok ↦ inr (ground arith, (s.user, ground arith))
  | inr bad ↦ inl (ground arith, ground arith)
]

signup_sent-IsSingle :
    (s : Entrance)
    → s.store.register.is_fetching ≡ false
    → s.signups ≡ []
    → IsSingle (signup_sent s).store.register.is_fetching (signup_sent s).signups
unfolding signup_sent register_submit register_begin settle reduce_all reduce
signup_sent-IsSingle s idle none_sent =
    elim (Bool-cases (text_eq s.fields.password s.fields.confirm_password)) [
      | inr differ ↦ inl (ground arith, ground arith)
      | inl same ↦ elim (Bool-cases (validate_password s.fields.password)) [
        | inr weak ↦ inl (ground arith, ground arith)
        | inl strong ↦ elim (Bool-cases (email_valid s.fields.email)) [
          | inr bad ↦ inl (ground arith, ground arith)
          | inl ok ↦ inr (
            ground arith,
            (record { email = s.fields.email; password = s.fields.password }, ground arith),
          )
        ]
      ]
    ]

login_sent-register :
    (s : Entrance) → (login_sent s).store.register.is_fetching ≡ s.store.register.is_fetching
unfolding login_sent handle_login login_begin settle reduce_all reduce
login_sent-register s = ground arith

signup_sent-login :
    (s : Entrance) → (signup_sent s).store.login.is_fetching ≡ s.store.login.is_fetching
unfolding signup_sent register_submit register_begin settle reduce_all reduce
signup_sent-login s = ground arith

nonempty : (before after : List Credentials) (u : Credentials) → ¬ ([] ≡ before ++ u ∷ after)
nonempty [] after u e = cc
nonempty (b ∷ before) after u e = cc

single-rest :
    (before after : List Credentials) (u v : Credentials)
    → v ∷ [] ≡ before ++ u ∷ after
    → before ++ after ≡ []
single-rest [] [] u v e = refl
single-rest [] (x ∷ after) u v e = cc
single-rest (b ∷ before) after u v e = absurd (nonempty before after u (cc))

login_end-fetching :
    (s : AuthState) (u : Credentials) (r : Reply LoginBody)
    → ((settle s (login_end u r)).login.is_fetching ≡ false)
      × ((settle s (login_end u r)).register.is_fetching ≡ s.register.is_fetching)
unfolding settle login_end reduce_all reduce
login_end-fetching s u (answered status body) = elim (Option-cases body.payload) [
  | inl missing ↦ ground arith
  | inr (token, e) ↦ ground arith
]
login_end-fetching s u (threw f) = (refl, refl)

register_end-fetching :
    (s : AuthState) (u : Credentials) (r : Reply SignupBody)
    → ((settle s (register_end u r)).register.is_fetching ≡ false)
      × ((settle s (register_end u r)).login.is_fetching ≡ s.login.is_fetching)
unfolding settle register_end reduce_all reduce
register_end-fetching s u (answered status body) = ground arith
register_end-fetching s u (threw f) = (refl, refl)

-- What is on its way after an answer.
answered-IsSingle :
    (before after : List Credentials) (u : Credentials) {b : Bool} {flights : List Credentials}
    → IsSingle b flights
    → flights ≡ before ++ u ∷ after
    → before ++ after ≡ []
answered-IsSingle before after u (inl (idle, empty)) e =
    absurd (nonempty before after u (sym empty ∙ e))
answered-IsSingle before after u (inr (busy, (v, one))) e =
    single-rest before after u v (sym one ∙ e)

login_sent-IsCalm :
    (s : Entrance) (visible : Bool)
    → IsCalm s
    → IsIn submit (offers (login_view s.store.login.is_fetching visible s.user))
    → IsCalm (login_sent s)
unfolding login_sent
login_sent-IsCalm s visible h offered = record {
  one_login = elim (h.one_login) [
    | inl (idle, empty) ↦ login_sent-IsSingle s idle empty
    | inr (busy, _) ↦ absurd (
        login_view-fetching visible s.user
          (subst (λ b. IsIn submit (offers (login_view b visible s.user))) busy offered))
  ];
  one_signup = subst (λ b. IsSingle b s.signups) (sym (login_sent-register s)) h.one_signup;
}

signup_sent-IsCalm :
    (s : Entrance) (v w : Bool)
    → IsCalm s
    → IsIn submit (offers (register_view s.store.register.is_fetching v w s.fields))
    → IsCalm (signup_sent s)
unfolding signup_sent
signup_sent-IsCalm s v w h offered = record {
  one_login = subst (λ b. IsSingle b s.logins) (sym (signup_sent-login s)) h.one_login;
  one_signup = elim (h.one_signup) [
    | inl (idle, empty) ↦ signup_sent-IsSingle s idle empty
    | inr (busy, _) ↦ absurd (
        register_view-fetching v w s.fields
          (subst (λ b. IsIn submit (offers (register_view b v w s.fields))) busy offered))
  ];
}

cleared-IsCalm :
    (s : Entrance) (f : Form)
    → IsCalm s
    → IsCalm (cleared s (clear_error f)) × IsCalm (cleared s (clear_message f))
unfolding cleared reduce
cleared-IsCalm s Form.login h = (
  record { one_login = h.one_login; one_signup = h.one_signup },
  record { one_login = h.one_login; one_signup = h.one_signup },
)
cleared-IsCalm s Form.register h = (
  record { one_login = h.one_login; one_signup = h.one_signup },
  record { one_login = h.one_login; one_signup = h.one_signup },
)

-- No form of the entrance is sent twice: from a state in which nothing is on its way, whatever is
-- typed, and whenever the forms are sent as their pages offer it and answers of any kind come in, at
-- most one login and one registration are on their way, and the store says so of each exactly.
pub Reach-IsCalm : {s t : Entrance} → IsCalm s → Reach s t → IsCalm t
unfolding login_answered signup_answered
Reach-IsCalm h here = h
Reach-IsCalm h (types u f r) =
    let k = Reach-IsCalm h r in record { one_login = k.one_login; one_signup = k.one_signup }
Reach-IsCalm h (logs_in {t} v r offered) = login_sent-IsCalm t v (Reach-IsCalm h r) offered
Reach-IsCalm h (signs_up {t} v w r offered) = signup_sent-IsCalm t v w (Reach-IsCalm h r) offered
Reach-IsCalm h (login_answer {t} before after u a r e) =
    let k = Reach-IsCalm h r in
    let (done, other) = login_end-fetching t.store u a in
    record {
      one_login = inl (done, answered-IsSingle before after u k.one_login e);
      one_signup = subst (λ b. IsSingle b t.signups) (sym other) k.one_signup;
    }
Reach-IsCalm h (signup_answer {t} before after u a r e) =
    let k = Reach-IsCalm h r in
    let (done, other) = register_end-fetching t.store u a in
    record {
      one_login = subst (λ b. IsSingle b t.logins) (sym other) k.one_login;
      one_signup = inl (done, answered-IsSingle before after u k.one_signup e);
    }
Reach-IsCalm h (clears_error {t} f r) = (cleared-IsCalm t f (Reach-IsCalm h r)).0
Reach-IsCalm h (clears_message {t} f r) = (cleared-IsCalm t f (Reach-IsCalm h r)).1
