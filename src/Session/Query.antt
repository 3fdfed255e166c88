-- ===== src/Session/Query.antt =====
-- redux/features/api/apiSlice.ts: a query that is refused with 401 is sent once more after the
-- token has been refreshed. `fetch` stands for `fetchBaseQuery`, over a world `W` that it changes.
pub mod Laws
use mpc_main.Prelude.{
  ℕ, String, Bool, true, false, Option, none, some, List, [], ◌∷◌, ◌==◌, if◌then◌else◌, truthy,
}
use mpc_main.Store.{AuthState, add_access_token, remove_access_token, reduce}

pub data Method : Type 0 where
  get post delete : Method

-- `args`, and the call that is made of it: the token of the store stands in the header, if any.
pub record Args : Type 0 where
  pub url : String
  pub method : Method
  pub include_credentials : Bool

pub record Call : Type 0 where
  pub args : Args
  pub authorization : Option String

-- `{ data }` or `{ error }`; `data` may be null. Of the data only `accessToken` is read here.
pub data Answer (D : Type 0) : Type 0 where
  found : D → Answer D
  no_data : Answer D
  error : ℕ → Answer D
  unreachable : String → Answer D

abbrev pub refresh_args : Args
refresh_args = record { url = "/api/v1/auth/refresh"; method = post; include_credentials = true }

-- `prepareHeaders`
abbrev pub call_with : Args → String → Call
call_with args token = record {
  args = args;
  authorization = if truthy token then some token else none;
}

abbrev pub is_unauthorized : {D : Type 0} → Answer D → Bool
is_unauthorized (error status) = status == 401
is_unauthorized _ = false

-- The answer, the store, the world, and the calls that were made, in order.
pub record Queried (D W : Type 0) : Type 0 where
  pub answer : Answer D
  pub auth : AuthState
  pub world : W
  pub calls : List Call

-- `token_of` reads `accessToken`; where the field is missing, the store is left without a token.
module _ {D W : Type 0} (token_of : D → String) (fetch : Call → W → Answer D × W) where
  unfoldable pub after_refresh : Args → AuthState → Answer D → Answer D → W → Queried D W
  after_refresh args s first (found d) w =
      let s' = reduce s (add_access_token (token_of d)) in
      let call = call_with args s'.access_token in
      let (answer, w') = fetch call w in
      record { answer = answer; auth = s'; world = w'; calls = call ∷ [] }
  after_refresh args s first _ w = record {
    answer = first;
    auth = reduce s remove_access_token;
    world = w;
    calls = [];
  }

  unfoldable pub query_with_reauth : Args → AuthState → W → Queried D W
  unfolding after_refresh
  query_with_reauth args s w =
      let call = call_with args s.access_token in
      let (first, w1) = fetch call w in
      let refresh = call_with refresh_args s.access_token in
      let (refreshed, w2) = fetch refresh w1 in
      let last = after_refresh args s first refreshed w2 in
      if is_unauthorized first
      then record last { calls = call ∷ refresh ∷ last.calls }
      else record { answer = first; auth = s; world = w1; calls = call ∷ [] }
