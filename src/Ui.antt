-- ===== src/Ui.antt =====
-- What a page does besides changing its own state, and how a request comes back.
use mpc_main.Prelude.{ℕ, String, Bool, Option, List, [], ◌∷◌, or_text, Text}
use mpc_main.Store.{AuthAction}

-- `R` is the type of the requests that the page sends. A toast of `undefined` is `none`. `raised`
-- is a `TypeError` that the handler does not catch, which ends it; `save` writes to the local
-- storage, and `close` calls the `onClose` that the page was given.
pub data Effect (R : Type 0) : Type 0 where
  success failure notice : Option String → Effect R
  navigate : String → Effect R
  navigate_after : ℕ → String → Effect R
  dispatch : AuthAction → Effect R
  dispatch_after : ℕ → AuthAction → Effect R
  wallet_updated : Bool → Effect R
  save : Text → String → Effect R
  field_error : String → String → Effect R
  send : R → Effect R
  close : Effect R
  raised : Effect R

-- Why a request was rejected: there is no `error.response`, or its `data.message` is the text.
pub data Failure : Type 0 where
  network : Failure
  refused : Option String → Failure

-- A response with its status and its data, or a rejection.
pub data Reply (B : Type 0) : Type 0 where
  answered : ℕ → B → Reply B
  threw : Failure → Reply B

-- `error?.response?.data?.message || fallback`
abbrev pub message_or : Failure → String → String
message_or network fallback = fallback
message_or (refused m) fallback = or_text m fallback

-- The data of most answers: a message that may be missing, and what the page reads of the rest.
pub record Body (B : Type 0) : Type 0 where
  pub message : Option String
  pub content : B

-- The requests among the effects.
module _ {R : Type 0} where
  abbrev pub sends : List (Effect R) → List R
  sends [] = []
  sends (send r ∷ rest) = r ∷ sends rest
  sends (_ ∷ rest) = sends rest

  -- The actions that are dispatched at once.
  abbrev pub dispatches : List (Effect R) → List AuthAction
  dispatches [] = []
  dispatches (dispatch a ∷ rest) = a ∷ dispatches rest
  dispatches (_ ∷ rest) = dispatches rest

  -- The pages that the effects lead to, at once.
  abbrev pub visits : List (Effect R) → List String
  visits [] = []
  visits (navigate path ∷ rest) = path ∷ visits rest
  visits (_ ∷ rest) = visits rest
