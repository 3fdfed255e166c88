-- ===== src/Business/Keys/Laws.antt =====
-- Which keys are shown in clear.
use mpc_main.Prelude.{
  String, ◌≡◌, refl, sym, ap, ◌∙◌, inl, inr, Bool, false, not, ◌&&◌, ◌||◌, Option, List, [], ◌∷◌,
  ◌++◌, map, arith, str_eq, eq_iff, if◌then◌else◌, Bool-cases, Option-cases, truthy, keep,
}
use mpc_main.Business.Keys.{
  ApiKey, Page, has, toggle_key_visibility, handle_delete_key, confirm_delete_key, shown_key,
}

-- What the page can be asked for.
pub data Event : Type 0 where
  toggled : String → Event
  delete_pressed : Option String → Event
  delete_confirmed : Event

abbrev pub step : Page → Event → Page
step s (toggled id) = toggle_key_visibility s id
step s (delete_pressed id) = handle_delete_key s id
step s delete_confirmed = (confirm_delete_key s).0

pub run : Page → List Event → Page
run s [] = s
run s (ev ∷ rest) = run (step s ev) rest

-- Whether a key is shown after the events, by the toggles of it alone.
abbrev pub toggled_from : String → Bool → List Event → Bool
toggled_from id b [] = b
toggled_from id b (toggled j ∷ rest) = toggled_from id (if str_eq j id then not b else b) rest
toggled_from id b (delete_pressed j ∷ rest) = toggled_from id b rest
toggled_from id b (delete_confirmed ∷ rest) = toggled_from id b rest

has-append : (v w : List String) (i : String) → has (v ++ w) i ≡ (has v i || has w i)
has-append [] w i = refl
has-append (x ∷ v) w i = ground (arith, has-append v w i)

has-remove :
    (v : List String) (i j : String)
    → has (keep (λ x. not (str_eq x j)) v) i ≡ (not (str_eq j i) && has v i)
has-remove [] i j = ground arith
has-remove (x ∷ v) i j = elim (Bool-cases (str_eq x j)) [
  | inl same ↦
      let p = ap (λ t. str_eq t i) ((eq_iff x j).0 same) in
      simp same (ground (arith, has-remove v i j, p))
  | inr other ↦ elim (Bool-cases (str_eq x i)) [
    | inr apart ↦ simp (other, apart) (has-remove v i j)
    | inl found ↦ elim (Bool-cases (str_eq j i)) [
      | inr differ ↦ simp (other, found, differ) refl
      | inl equal ↦
          let p = (eq_iff x i).0 found ∙ sym ((eq_iff j i).0 equal) in
          let again = (eq_iff x j).1 p in cc
    ]
  ]
]

has-toggle :
    (s : Page) (i j : String)
    → has (toggle_key_visibility s j).visible_keys i
      ≡ (if str_eq j i then not (has s.visible_keys i) else has s.visible_keys i)
unfolding toggle_key_visibility
has-toggle s i j =
    let v = s.visible_keys in
    let gone = has-remove v i j in
    let more = has-append v (j ∷ []) i in
    elim (Bool-cases (str_eq j i)) [
      | inl same ↦ let p = ap (has v) ((eq_iff j i).0 same) in ground (arith, gone, more, p)
      | inr other ↦ ground (arith, gone, more)
    ]

visible-confirm : (s : Page) → (confirm_delete_key s).0.visible_keys ≡ s.visible_keys
unfolding confirm_delete_key
visible-confirm s = elim (Option-cases s.delete_key_id) [
  | inl none_chosen ↦ rw none_chosen refl
  | inr (id, chosen) ↦ elim (Bool-cases (truthy id)) [
    | inl full ↦ rw (chosen, full) refl
    | inr blank ↦ rw (chosen, blank) refl
  ]
]

has-run :
    (events : List Event) (s : Page) (i : String)
    → has (run s events).visible_keys i ≡ toggled_from i (has s.visible_keys i) events
unfolding run handle_delete_key
has-run [] s i = refl
has-run (toggled j ∷ rest) s i =
    has-run rest (toggle_key_visibility s j) i ∙ ap (λ b. toggled_from i b rest) (has-toggle s i j)
has-run (delete_pressed j ∷ rest) s i = has-run rest (handle_delete_key s j) i
has-run (delete_confirmed ∷ rest) s i =
    has-run rest (confirm_delete_key s).0 i
    ∙ ap (λ v. toggled_from i (has v i) rest) (visible-confirm s)

-- From a page that shows no key, whatever is toggled and deleted, in any order, a key is displayed in
-- clear exactly if it was toggled an odd number of times, whatever the other keys were, and else as
-- one bullet for each of its units.
pub shown_key-run :
    (s : Page) (events : List Event) (k : ApiKey)
    → s.visible_keys ≡ []
    → shown_key (run s events) k
      ≡ (if toggled_from k.id false events then k.key else map (λ c. 0x2022) k.key)
unfolding shown_key
shown_key-run s events k none_shown = rw (has-run events s k.id, none_shown) refl
