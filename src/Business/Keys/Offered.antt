-- ===== src/Business/Keys/Offered.antt =====
-- What someone can do who only presses what pages/connect-app/connect-app.tsx shows.
use mathlib.Core.Path.{subst}
use mpc_main.Prelude.{
  ℕ, ◌≤◌, ◌<◌, String, ◌≡◌, refl, sym, ap, ◌∙◌, ◌⊎◌, inl, inr, Bool, true, false, not, Option, none,
  some, List, [], ◌∷◌, ◌++◌, arith, str_eq, eq_iff, Bool-cases, truthy, length, keep, any,
}
use mpc_main.Views.{button, labels, rows, offers, IsIn, offers-append, offers-labels, offers-cases}
use mpc_main.Business.Keys.{
  ApiKey, Page, handle_delete_key, toggle_key_visibility, confirm_delete_key,
}
use mpc_main.Business.Services.{MpcService, mpc_services, Tab}
use mpc_main.Business.Keys.Screen.{
  Screen, Press, tab, toggle, delete, copy, create, confirm, cancel, hover, press, key_row,
  service_card, key_list, keys_tab, asked, dialog, tab_bar, tab_content, view,
}

-- A key with this identifier is in the list.
abbrev pub is_listed : String → List ApiKey → Bool
is_listed id keys = any (λ k. str_eq k.id id) keys

abbrev unlisted : String → List ApiKey → List ApiKey
unlisted id keys = keep (λ k. not (str_eq k.id id)) keys

unlisted-le : (id : String) (keys : List ApiKey) → length (unlisted id keys) ≤ length keys
unlisted-le id [] = omega arith
unlisted-le id (k ∷ rest) = ground (arith, unlisted-le id rest)

unlisted-lt :
    (id : String) (keys : List ApiKey)
    → is_listed id keys ≡ true
    → length (unlisted id keys) < length keys
unlisted-lt id [] h = cc
unlisted-lt id (k ∷ rest) h = ground (arith, unlisted-le id rest, unlisted-lt id rest)

is_listed-unlisted : (id : String) (keys : List ApiKey) → is_listed id (unlisted id keys) ≡ false
is_listed-unlisted id [] = refl
is_listed-unlisted id (k ∷ rest) = ground (arith, is_listed-unlisted id rest)

-- The key that the dialog asks about, if any, is in the list.
abbrev AsksListed : Page → Type 0
AsksListed p =
    (p.delete_key_id ≡ none)
    ⊎ ((id : String) × (p.delete_key_id ≡ some id) × (is_listed id p.api_keys ≡ true))

confirm-AsksListed : (p : Page) → AsksListed p → AsksListed (confirm_delete_key p).0
unfolding confirm_delete_key
confirm-AsksListed p (inl e) = inl (ground arith)
confirm-AsksListed p (inr (id, e, listed)) = elim (Bool-cases (truthy id)) [
  | inl full ↦ inl (ground arith)
  | inr empty ↦ inr (id, ground arith, ground arith)
]

module _ (upper : String → String) (locale : ℕ → String) where
  abbrev pub offered : Screen → List Press
  offered s = offers (view upper locale s)

  -- Runs in which every press is one that the page shows, or the mouse moves.
  pub data Reach (s : Screen) : Screen → Type 0 where
    here : Reach s s
    presses : {t : Screen} (p : Press) → Reach s t → IsIn p (offered t) → Reach s (press t p).0
    moves : {t : Screen} (id : Option String) → Reach s t → Reach s (press t (hover id)).0

  offers-key_row :
      (s : Screen) (k : ApiKey)
      → offers (key_row upper locale s k) ≡ toggle k.id ∷ copy k.key ∷ delete k.id ∷ []
  offers-key_row s k =
      ap (λ l. toggle k.id ∷ copy k.key ∷ l)
        (offers-append (labels k.permissions) (button "FiTrash2" (some (delete k.id)) ∷ [])
          ∙ ap (λ l. l ++ (delete k.id ∷ [])) (offers-labels k.permissions))

  three-delete :
      (id : String) (k : ApiKey)
      → IsIn (delete id) (toggle k.id ∷ copy k.key ∷ delete k.id ∷ [])
      → id ≡ k.id
  three-delete id k (inl e) = cc
  three-delete id k (inr (inl e)) = cc
  three-delete id k (inr (inr (inl e))) = cc
  three-delete id k (inr (inr (inr h))) = elim h [ ]

  rows-delete :
      (s : Screen) (keys : List ApiKey) (id : String)
      → IsIn (delete id) (offers (rows (key_row upper locale s) keys))
      → is_listed id keys ≡ true
  rows-delete s [] id h = elim h [ ]
  rows-delete s (k ∷ rest) id h =
      let row = key_row upper locale s k in
      let others = rows (key_row upper locale s) rest in
      elim (offers-cases (delete id) row others h) [
        | inl first ↦
            let same = three-delete id k (subst (IsIn (delete id)) (offers-key_row s k) first) in
            ground (arith, (eq_iff k.id id).1 (sym same))
        | inr later ↦ ground (arith, rows-delete s rest id later)
      ]

  services-delete :
      (services : List MpcService) (id : String)
      → ¬ IsIn (delete id) (offers (rows (service_card upper locale) services))
  services-delete [] id h = h
  services-delete (v ∷ rest) id (inl e) = cc
  services-delete (v ∷ rest) id (inr h) = services-delete rest id h

  key_list-delete :
      (s : Screen) (keys : List ApiKey) (id : String)
      → IsIn (delete id) (offers (key_list upper locale s keys))
      → is_listed id keys ≡ true
  key_list-delete s [] id h = elim h [ ]
  key_list-delete s (k ∷ rest) id h = rows-delete s (k ∷ rest) id h

  keys_tab-delete :
      (s : Screen) (id : String)
      → IsIn (delete id) (offers (keys_tab upper locale s))
      → is_listed id s.keys.api_keys ≡ true
  keys_tab-delete s id h =
      elim (offers-cases (delete id) (key_list upper locale s s.keys.api_keys)
        (button "Tạo API Key mới" (some create) ∷ []) h) [
          | inl listed ↦ key_list-delete s s.keys.api_keys id listed
          | inr (inl e) ↦ cc
          | inr (inr none_left) ↦ absurd none_left
        ]

  asked-delete : (b : Bool) (id : String) → ¬ IsIn (delete id) (offers (asked upper locale b))
  asked-delete true id (inl e) = cc
  asked-delete true id (inr (inl e)) = cc
  asked-delete true id (inr (inr h)) = h
  asked-delete false id h = h

  dialog-delete :
      (o : Option String) (id : String) → ¬ IsIn (delete id) (offers (dialog upper locale o))
  dialog-delete none id h = h
  dialog-delete (some j) id h = asked-delete (truthy j) id h

  content-delete :
      (s : Screen) (t : Tab) (id : String)
      → IsIn (delete id) (offers (tab_content upper locale s t))
      → is_listed id s.keys.api_keys ≡ true
  content-delete s Tab.api_keys id h = keys_tab-delete s id h
  content-delete s Tab.services id h = absurd (services-delete mpc_services id h)

  -- The page offers to delete only keys of the list.
  view-delete :
      (s : Screen) (id : String)
      → IsIn (delete id) (offered s)
      → is_listed id s.keys.api_keys ≡ true
  unfolding view
  view-delete s id h =
      elim (offers-cases (delete id) (tab_bar upper locale)
        (tab_content upper locale s s.tabs.active_tab ++ dialog upper locale s.keys.delete_key_id)
        h) [
          | inl (inl e) ↦ cc
          | inl (inr (inl e)) ↦ cc
          | inl (inr (inr none_left)) ↦ absurd none_left
          | inr below ↦
              elim (offers-cases (delete id) (tab_content upper locale s s.tabs.active_tab)
                (dialog upper locale s.keys.delete_key_id) below) [
                  | inl content ↦ content-delete s s.tabs.active_tab id content
                  | inr asked ↦ absurd (dialog-delete s.keys.delete_key_id id asked)
                ]
        ]

  press-AsksListed :
      (s : Screen) (p : Press)
      → AsksListed s.keys
      → IsIn p (offered s)
      → AsksListed (press s p).0.keys
  unfolding press toggle_key_visibility handle_delete_key
  press-AsksListed s (tab t) h offers = h
  press-AsksListed s (toggle id) h offers = h
  press-AsksListed s (delete id) h offers = inr (id, refl, view-delete s id offers)
  press-AsksListed s (copy text) h offers = h
  press-AsksListed s create h offers = h
  press-AsksListed s confirm h offers = confirm-AsksListed s.keys h
  press-AsksListed s cancel h offers = inl refl
  press-AsksListed s (hover id) h offers = h

  Reach-AsksListed : {s t : Screen} → AsksListed s.keys → Reach s t → AsksListed t.keys
  unfolding press
  Reach-AsksListed h here = h
  Reach-AsksListed h (presses {t} p r offers) = press-AsksListed t p (Reach-AsksListed h r) offers
  Reach-AsksListed h (moves {t} id r) = Reach-AsksListed h r

  -- For someone who only presses what the page shows: whenever the page asks whether a key is to be
  -- deleted, that key is in the list, and to confirm takes it off the list and makes the list shorter.
  pub Reach-confirm :
      {s t : Screen} (id : String)
      → s.keys.delete_key_id ≡ none
      → Reach s t
      → t.keys.delete_key_id ≡ some id
      → truthy id ≡ true
      → let keys = (press t confirm).0.keys.api_keys in
        (is_listed id t.keys.api_keys ≡ true)
        × (is_listed id keys ≡ false)
        × (length keys < length t.keys.api_keys)
  unfolding press confirm_delete_key
  Reach-confirm {s} {t} id closed run asks full = elim (Reach-AsksListed (inl closed) run) [
    | inl e ↦ cc
    | inr (j, e, listed) ↦
        let same : j ≡ id = cc in
        let listed' : is_listed id t.keys.api_keys ≡ true = rw (← same) listed in
        let confirmed : (confirm_delete_key t.keys).0.api_keys ≡ unlisted id t.keys.api_keys =
          ground arith in
        (
          listed',
          ap (is_listed id) confirmed ∙ is_listed-unlisted id t.keys.api_keys,
          rw confirmed (unlisted-lt id t.keys.api_keys listed'),
        )
  ]
