-- ===== src/Session/Query/Laws.antt =====
-- When a query is sent again, with which token, and when the session ends.
use mpc_main.Prelude.{
  String, ◌≡◌, refl, ap, ◌∙◌, inl, inr, Bool, true, false, [], ◌∷◌, arith, Bool-cases,
}
use mpc_main.Store.{AuthState, reduce}
use mpc_main.Session.Query.{
  Args, Call, Answer, found, no_data, error, unreachable, refresh_args, call_with, is_unauthorized,
  Queried, query_with_reauth, after_refresh,
}

-- Whether an answer has data.
abbrev pub has_data : {D : Type 0} → Answer D → Bool
has_data (found d) = true
has_data _ = false

module _ {D W : Type 0} (token_of : D → String) (fetch : Call → W → Answer D × W) where
  -- The three ways in which a query goes, each with what the server answers to its calls.
  pub data Course (args : Args) (s : AuthState) (w : W) : Queried D W → Type 0 where
    -- The first answer is no 401: one call, and the store is as it was.
    direct :
        (answer : Answer D) (w1 : W)
        → fetch (call_with args s.access_token) w ≡ (answer, w1)
        → is_unauthorized answer ≡ false
        → Course args s w (record {
          answer = answer;
          auth = s;
          world = w1;
          calls = call_with args s.access_token ∷ [];
        })
    -- The refresh gave data: the token is stored, the query goes out once more with it, and the
    -- answer to that is the answer.
    renewed :
        (d : D) (answer : Answer D) (w1 w2 w3 : W)
        → fetch (call_with args s.access_token) w ≡ (error 401, w1)
        → fetch (call_with refresh_args s.access_token) w1 ≡ (found d, w2)
        → fetch (call_with args (token_of d)) w2 ≡ (answer, w3)
        → Course args s w (record {
          answer = answer;
          auth = record s { access_token = token_of d };
          world = w3;
          calls =
              call_with args s.access_token
              ∷ call_with refresh_args s.access_token
              ∷ call_with args (token_of d)
              ∷ [];
        })
    -- The refresh failed: the first answer, a 401, is given on, and the token is removed.
    ended :
        (refreshed : Answer D) (w1 w2 : W)
        → fetch (call_with args s.access_token) w ≡ (error 401, w1)
        → fetch (call_with refresh_args s.access_token) w1 ≡ (refreshed, w2)
        → has_data refreshed ≡ false
        → Course args s w (record {
          answer = error 401;
          auth = record s { access_token = "" };
          world = w2;
          calls = call_with args s.access_token ∷ call_with refresh_args s.access_token ∷ [];
        })

pub unauthorized-eq : {D : Type 0} (a : Answer D) → is_unauthorized a ≡ true → a ≡ error 401
unauthorized-eq (found d) h = cc
unauthorized-eq no_data h = cc
unauthorized-eq (error n) h = ground arith
unauthorized-eq (unreachable m) h = cc

module _ {D W : Type 0} (token_of : D → String) (fetch : Call → W → Answer D × W) where
  after_refresh-Course :
      (args : Args) (s : AuthState) (w : W) (first refreshed : Answer D) (w1 w2 : W)
      → first ≡ error 401
      → fetch (call_with args s.access_token) w ≡ (first, w1)
      → fetch (call_with refresh_args s.access_token) w1 ≡ (refreshed, w2)
      → let last = after_refresh token_of fetch args s first refreshed w2 in
        Course token_of fetch args s w (record last {
          calls =
              call_with args s.access_token ∷ call_with refresh_args s.access_token ∷ last.calls;
        })
  unfolding after_refresh reduce
  after_refresh-Course args s w first (found d) w1 w2 e a b =
      renewed d _ w1 w2 _ (a ∙ ap (λ x. (x, w1)) e) b refl
  after_refresh-Course args s w first no_data w1 w2 e a b =
      rw e (ended no_data w1 w2 (a ∙ ap (λ x. (x, w1)) e) b refl)
  after_refresh-Course args s w first (error n) w1 w2 e a b =
      rw e (ended (error n) w1 w2 (a ∙ ap (λ x. (x, w1)) e) b refl)
  after_refresh-Course args s w first (unreachable m) w1 w2 e a b =
      rw e (ended (unreachable m) w1 w2 (a ∙ ap (λ x. (x, w1)) e) b refl)

  -- Every query takes one of three courses, whatever the server answers: it is sent once and its
  -- answer, which is no 401, is given on; or it is refused with 401, the token is refreshed, and it
  -- is sent once more, with the new token, which the store holds from then on, and the answer to
  -- that is given on, be it a 401 again; or the refresh brings no data, and the token is removed and
  -- the 401 given on. So a query makes three calls at most, each after the one before.
  pub query-Course :
      (args : Args) (s : AuthState) (w : W)
      → Course token_of fetch args s w (query_with_reauth token_of fetch args s w)
  unfolding query_with_reauth
  query-Course args s w =
      let call = call_with args s.access_token in
      elim (Bool-cases (is_unauthorized (fetch call w).0)) [
        | inl refused ↦
            rw refused (after_refresh-Course args s w _ _ _ _ (unauthorized-eq _ refused) refl refl)
        | inr passed ↦ rw passed (direct _ _ refl passed)
      ]
