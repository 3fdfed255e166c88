-- ===== src/Setting/Profile.antt =====
-- components/setting/profile_tab.tsx: the edit of the profile, and the two dialogs of security_tab.tsx.
-- A file is given by a name; the button of the form is disabled while `isLoading` (button.tsx).
use mpc_main.Prelude.{
  String, ◌≡◌, refl, ap, Bool, true, false, not, Option, some, List, [], ◌∷◌, arith, str_eq,
  if◌then◌else◌, Text,
}
use mpc_main.Ui.{Effect, success, failure, send, raised, Reply, answered, threw, network, refused}

pub record UserData : Type 0 where
  pub full_name : Text
  pub email : Text
  pub avatar : String

pub record Profile : Type 0 where
  pub user_data : UserData
  pub image : Option String
  pub is_loading : Bool

-- What is sent: the image, if one was chosen, and the name.
pub data Request : Type 0 where
  edit_profile : Option String → Text → Request

abbrev pub Effects : Type 0
Effects = List (Effect Request)

-- `handleInputChange`, at the two fields of the form.
unfoldable pub input_change : Profile → String → Text → Profile
input_change s field value = record s {
  user_data =
      if str_eq field "full_name"
      then record s.user_data { full_name = value }
      else if str_eq field "email"
      then record s.user_data { email = value }
      else s.user_data;
}

-- `handleImageChange`
unfoldable pub image_change : Profile → String → Profile
image_change s file = record s { image = some file }

-- `handleSubmit` and `mutationFn`, where the button is not disabled.
unfoldable pub submit : Profile → Profile × Effects
submit s =
    if s.is_loading
    then (s, [])
    else (record s { is_loading = true }, send (edit_profile s.image s.user_data.full_name) ∷ [])

-- `onSuccess` and `onError`, which reads `response.data` with no test.
unfoldable pub finish : Profile → Reply (Unit {0}) → Profile × Effects
finish s (answered status body) =
    (record s { is_loading = false }, success (some "Thay đổi thông tin thành công") ∷ [])
finish s (threw network) = (s, raised ∷ [])
finish s (threw (refused m)) = (record s { is_loading = false }, failure m ∷ [])

pub data Event : Type 0 where
  typed : String → Text → Event
  chose : String → Event
  submitted : Event
  replied : Reply (Unit {0}) → Event

-- The form, whether a request waits for its answer, and the requests that were sent, the last first.
pub record Run : Type 0 where
  pub form : Profile
  pub waiting : Bool
  pub sent : List Request

abbrev add : Run → Profile × Effects → Run
add r (form, send q ∷ rest) = record { form = form; waiting = true; sent = q ∷ r.sent }
add r (form, _) = record r { form = form }

unfoldable pub step : Run → Event → Run
unfolding submit
step r (typed field value) = record r { form = input_change r.form field value }
step r (chose file) = record r { form = image_change r.form file }
step r submitted = add r (submit r.form)
step r (replied a) =
    if r.waiting then record r { form = (finish r.form a).0; waiting = false } else r

unfoldable pub run : Run → List Event → Run
unfolding step
run r [] = r
run r (e ∷ rest) = run (step r e) rest

submit-loading : (s : Profile) → s.is_loading ≡ true → submit s ≡ (s, [])
unfolding submit
submit-loading s loading = ground arith

step-loading : (r : Run) → r.form.is_loading ≡ true → step r submitted ≡ r
unfolding step
step-loading r loading = ap (add r) (submit-loading r.form loading)

step-over : (r : Run) (a : Reply (Unit {0})) → r.waiting ≡ false → step r (replied a) ≡ r
unfolding step
step-over r a over = ground (arith, over)

-- While the form is loading and no request waits, nothing the user does is sent any more.
pub stuck :
    (r : Run) (events : List Event)
    → r.form.is_loading ≡ true
    → r.waiting ≡ false
    → (run r events).sent ≡ r.sent
unfolding run step input_change image_change
stuck r [] loading over = refl
stuck r (typed f v ∷ rest) loading over = stuck (step r (typed f v)) rest loading over
stuck r (chose f ∷ rest) loading over = stuck (step r (chose f)) rest loading over
stuck r (submitted ∷ rest) loading over =
    rw (run, step-loading r loading) (stuck r rest loading over)
stuck r (replied a ∷ rest) loading over = rw (run, step-over r a over) (stuck r rest loading over)

-- A request of which no answer comes back leaves the form loading for good: whatever the user types,
-- chooses or submits after it, no request is sent again.
pub network-stuck :
    (r : Run) (events : List Event)
    → r.form.is_loading ≡ true
    → r.waiting ≡ true
    → (run r (replied (threw network) ∷ events)).sent ≡ r.sent
unfolding run step finish
network-stuck r events loading waits =
    rw waits (stuck (record r { waiting = false }) events loading refl)

-- What is sent is what stands in the form: the last name that was typed and the last image.
pub submitted-form :
    (r : Run)
    → r.form.is_loading ≡ false
    → (step r submitted).sent ≡ edit_profile r.form.image r.form.user_data.full_name ∷ r.sent
unfolding step submit
submitted-form r idle = rw idle refl

-- The two dialogs of security_tab.tsx, which `handleOpenModal` switches.
pub record Dialogs : Type 0 where
  pub password : Bool
  pub security_code : Bool

unfoldable pub open_modal : Dialogs → String → Dialogs
open_modal s field =
    if str_eq field "password"
    then record s { password = not s.password }
    else if str_eq field "security_code"
    then record s { security_code = not s.security_code }
    else s
