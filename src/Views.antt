-- ===== src/Views.antt =====
-- What a page shows, in the order of the page and without its layout. `E` is what the user can do on
-- the page.
use mathlib.Core.Path.{subst}
use mpc_main.Prelude.{
  String, ◌≡◌, refl, sym, ap, ◌⊎◌, inl, inr, Option, none, some, List, [], ◌∷◌, ◌++◌, Text,
}

pub data Item (E : Type 0) : Type 0 where
  -- A fixed text or one that is passed on, and a text of the state.
  label : String → Item E
  shown : Text → Item E
  icon : String → Item E
  -- By its text or its icon; `none` is a button without a handler.
  button : String → Option E → Item E
  -- What can be clicked without being a button.
  area : E → Item E
  -- An input with its hint and its value.
  input : String → Text → Item E
  -- A selection with its options and its value.
  select : List String → String → Item E
  -- The text and the path.
  link : String → String → Item E

module _ {E : Type 0} where
  -- What the buttons and areas of a view can do.
  abbrev pub offers : List (Item E) → List E
  offers [] = []
  offers (button text (some e) ∷ rest) = e ∷ offers rest
  offers (area e ∷ rest) = e ∷ offers rest
  offers (_ ∷ rest) = offers rest

  abbrev pub shows : List (Item E) → List Text
  shows [] = []
  shows (shown t ∷ rest) = t ∷ shows rest
  shows (_ ∷ rest) = shows rest

  -- The paths of the links.
  abbrev pub links : List (Item E) → List String
  links [] = []
  links (link text path ∷ rest) = path ∷ links rest
  links (_ ∷ rest) = links rest

  abbrev pub labels : List String → List (Item E)
  labels [] = []
  labels (s ∷ rest) = label s ∷ labels rest

  -- `list.map(row)` in the markup.
  abbrev pub rows {ℓ} : {A : Type ℓ} → (A → List (Item E)) → List A → List (Item E)
  rows row [] = []
  rows row (x ∷ rest) = row x ++ rows row rest

  abbrev pub IsIn : E → List E → Type 0
  IsIn e [] = ⊥
  IsIn e (x ∷ rest) = (e ≡ x) ⊎ IsIn e rest

  pub offers-append : (xs ys : List (Item E)) → offers (xs ++ ys) ≡ offers xs ++ offers ys
  offers-append [] ys = refl
  offers-append (label s ∷ rest) ys = offers-append rest ys
  offers-append (shown t ∷ rest) ys = offers-append rest ys
  offers-append (icon s ∷ rest) ys = offers-append rest ys
  offers-append (button s none ∷ rest) ys = offers-append rest ys
  offers-append (button s (some e) ∷ rest) ys = ap (λ l. e ∷ l) (offers-append rest ys)
  offers-append (area e ∷ rest) ys = ap (λ l. e ∷ l) (offers-append rest ys)
  offers-append (input s t ∷ rest) ys = offers-append rest ys
  offers-append (select o v ∷ rest) ys = offers-append rest ys
  offers-append (link s p ∷ rest) ys = offers-append rest ys

  pub offers-labels : (ls : List String) → offers (labels ls) ≡ []
  offers-labels [] = refl
  offers-labels (s ∷ rest) = offers-labels rest

  IsIn-append : (e : E) (xs ys : List E) → IsIn e (xs ++ ys) → IsIn e xs ⊎ IsIn e ys
  IsIn-append e [] ys h = inr h
  IsIn-append e (x ∷ rest) ys (inl here) = inl (inl here)
  IsIn-append e (x ∷ rest) ys (inr later) = elim (IsIn-append e rest ys later) [
    | inl left ↦ inl (inr left)
    | inr right ↦ inr right
  ]

  pub offers-cases :
      (e : E) (xs ys : List (Item E))
      → IsIn e (offers (xs ++ ys))
      → IsIn e (offers xs) ⊎ IsIn e (offers ys)
  offers-cases e xs ys h =
      IsIn-append e (offers xs) (offers ys) (subst (IsIn e) (offers-append xs ys) h)

  IsIn-left : (e : E) (xs ys : List E) → IsIn e xs → IsIn e (xs ++ ys)
  IsIn-left e [] ys h = elim h [ ]
  IsIn-left e (x ∷ rest) ys (inl here) = inl here
  IsIn-left e (x ∷ rest) ys (inr later) = inr (IsIn-left e rest ys later)

  pub offers_left :
      (e : E) (xs ys : List (Item E)) → IsIn e (offers xs) → IsIn e (offers (xs ++ ys))
  offers_left e xs ys h =
      subst (IsIn e) (sym (offers-append xs ys)) (IsIn-left e (offers xs) (offers ys) h)
