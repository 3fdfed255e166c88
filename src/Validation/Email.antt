-- ===== src/Validation/Email.antt =====
-- `/^[^\s@]+@[^\s@]+\.[^\s@]+$/`, the test of login.tsx and register.tsx.
use mpc_main.Prelude.{
  ℕ, ◌≡◌, refl, ap, ◌≢◌, ◌↔◌, inl, inr, Bool, true, false, not, ◌&&◌, ◌||◌, [], ◌∷◌, ◌++◌, arith,
  ◌==◌, if◌then◌else◌, Bool-cases, and-eq-true, all, Text, is_empty,
}
use mpc_main.Validation.{is_space}

-- `[^\s@]`
pub is_plain : ℕ → Bool
is_plain c = not (is_space c) && not (c == b'@')

-- A full stop with a character behind it.
dot_then : Text → Bool
dot_then [] = false
dot_then (c ∷ rest) = (c == b'.' && not (is_empty rest)) || dot_then rest

domain : Text → Bool
domain [] = false
domain (c ∷ rest) = all is_plain (c ∷ rest) && dot_then rest

-- What is left once one character of the local part is read.
local : Text → Bool
local [] = false
local (c ∷ rest) = if c == b'@' then domain rest else is_plain c && local rest

pub email_valid : Text → Bool
email_valid [] = false
email_valid (c ∷ rest) = is_plain c && local rest

-- The expression as it reads: three parts, none of them empty and none with a space or an `@`, the
-- first two joined by `@` and the last two by a full stop.
pub record IsEmail (t : Text) : Type 0 where
  pub user : Text
  pub host : Text
  pub top : Text
  pub shape : t ≡ user ++ b'@' ∷ (host ++ b'.' ∷ top)
  pub user_plain : (user ≢ []) × (all is_plain user ≡ true)
  pub host_plain : (host ≢ []) × (all is_plain host ≡ true)
  pub top_plain : (top ≢ []) × (all is_plain top ≡ true)

all-append : (p : ℕ → Bool) (xs ys : Text) → all p (xs ++ ys) ≡ (all p xs && all p ys)
all-append p [] ys = refl
all-append p (x ∷ xs) ys = ground (arith, all-append p xs ys)

dot_then_sound : (t : Text) → dot_then t ≡ true → (a b : Text) × (t ≡ a ++ b'.' ∷ b) × (b ≢ [])
unfolding dot_then
dot_then_sound [] h = cc
dot_then_sound (c ∷ []) h = ground arith
dot_then_sound (c ∷ d ∷ rest) h = elim (Bool-cases (c == b'.')) [
  | inl dot ↦ ([], d ∷ rest, ground arith, λ e. cc)
  | inr other ↦
      let (a, b, e, ne) = dot_then_sound (d ∷ rest) (ground arith) in (c ∷ a, b, ap (c ∷◌) e, ne)
]

dot_then_complete : (a b : Text) → b ≢ [] → dot_then (a ++ b'.' ∷ b) ≡ true
unfolding dot_then
dot_then_complete [] [] ne = absurd (ne refl)
dot_then_complete [] (x ∷ b) ne = refl
dot_then_complete (c ∷ a) b ne = ground (arith, dot_then_complete a b ne)

is_plain-at : (c : ℕ) → is_plain c ≡ true → (c == b'@') ≡ false
unfolding is_plain
is_plain-at c h = ground arith

is_plain-dot : is_plain b'.' ≡ true
unfolding is_plain
is_plain-dot = refl

-- A part that `local` has read up to the `@`.
record IsRest (t : Text) : Type 0 where
  user : Text
  host : Text
  top : Text
  shape : t ≡ user ++ b'@' ∷ (host ++ b'.' ∷ top)
  user_plain : all is_plain user ≡ true
  host_plain : (host ≢ []) × (all is_plain host ≡ true)
  top_plain : (top ≢ []) × (all is_plain top ≡ true)

domain_sound :
    (t : Text)
    → domain t ≡ true
    → (host top : Text) × (t ≡ host ++ b'.' ∷ top)
      × (host ≢ [])
      × (all is_plain host ≡ true)
      × (top ≢ [])
      × (all is_plain top ≡ true)
unfolding domain
domain_sound [] h = cc
domain_sound (c ∷ rest) h =
    let (plain, dotted) = (and-eq-true (all is_plain (c ∷ rest)) (dot_then rest)).0 h in
    let (a, b, e, ne) = dot_then_sound rest dotted in
    let split : (all is_plain a && all is_plain (b'.' ∷ b)) ≡ true =
      ground (arith, all-append is_plain a (b'.' ∷ b), ap (all is_plain) e) in
    (c ∷ a, b, ap (c ∷◌) e, λ e. cc, ground arith, ne, ground arith)

local_sound : (t : Text) → local t ≡ true → IsRest t
unfolding local
local_sound [] h = cc
local_sound (c ∷ rest) h = elim (Bool-cases (c == b'@')) [
  | inl at ↦
      let (host, top, e, host_ne, hp, top_ne, tp) = domain_sound rest (ground arith) in
      record {
        user = [];
        host = host;
        top = top;
        shape = ground arith;
        user_plain = refl;
        host_plain = (host_ne, hp);
        top_plain = (top_ne, tp);
      }
  | inr other ↦
      let r = local_sound rest (ground arith) in
      record {
        user = c ∷ r.user;
        host = r.host;
        top = r.top;
        shape = ap (c ∷◌) r.shape;
        user_plain = ground (arith, r.user_plain);
        host_plain = r.host_plain;
        top_plain = r.top_plain;
      }
]

local_complete :
    (user host top : Text)
    → all is_plain user ≡ true
    → host ≢ []
    → all is_plain host ≡ true
    → top ≢ []
    → all is_plain top ≡ true
    → local (user ++ b'@' ∷ (host ++ b'.' ∷ top)) ≡ true
unfolding local domain
local_complete [] [] top u hn h tn t = absurd (hn refl)
local_complete [] (c ∷ host) top u hn h tn t =
    ground
      (arith, is_plain-dot, all-append is_plain host (b'.' ∷ top), dot_then_complete host top tn)
local_complete (c ∷ user) host top u hn h tn t =
    ground (arith, is_plain-at c, local_complete user host top (ground arith) hn h tn t)

email_valid_sound : (t : Text) → email_valid t ≡ true → IsEmail t
unfolding email_valid
email_valid_sound [] h = cc
email_valid_sound (c ∷ rest) h =
    let r = local_sound rest (ground arith) in
    record {
      user = c ∷ r.user;
      host = r.host;
      top = r.top;
      shape = ap (c ∷◌) r.shape;
      user_plain = (λ e. cc, ground (arith, r.user_plain));
      host_plain = r.host_plain;
      top_plain = r.top_plain;
    }

email_valid_complete :
    (user host top : Text)
    → (user ≢ []) × (all is_plain user ≡ true)
    → (host ≢ []) × (all is_plain host ≡ true)
    → (top ≢ []) × (all is_plain top ≡ true)
    → email_valid (user ++ b'@' ∷ (host ++ b'.' ∷ top)) ≡ true
unfolding email_valid
email_valid_complete [] host top u h t = absurd (u.0 refl)
email_valid_complete (c ∷ user) host top u h t =
    ground (arith, local_complete user host top (ground arith) h.0 h.1 t.0 t.1)

-- The test accepts exactly the texts that the expression describes: a user, an `@`, a host, a full
-- stop and a last part, none of them empty and none with a space or another `@`.
pub email_valid_iff : (t : Text) → (email_valid t ≡ true) ↔ IsEmail t
email_valid_iff t = (
  email_valid_sound t,
  λ m. rw m.shape (email_valid_complete m.user m.host m.top m.user_plain m.host_plain m.top_plain),
)
