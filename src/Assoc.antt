-- ===== src/Assoc.antt =====
-- std::collections::HashMap and BTreeMap, as far as the program uses them: a list of entries in
-- which a key that is inserted again is replaced in place.
pub mod Laws
use surmount_server.Prelude.{
  ℕ, Bool, true, false, Option, none, some, List, [], ◌∷◌, ◌≡◌, Eq, ◌==◌, if◌then◌else◌, length,
}

abbrev pub Assoc {ℓ κ} : Type ℓ → Type κ → Type (ℓ ⊔ κ)
Assoc K V = List (K × V)

abbrev pub is_some {ℓ} : {A : Type ℓ} → Option A → Bool
is_some none = false
is_some (some a) = true

module _ {ℓ κ} {K : Type ℓ} {V : Type κ} ⦃e : Eq K⦄ where
  unfoldable pub lookup : K → Assoc K V → Option V
  lookup k [] = none
  lookup k ((j, v) ∷ m) = if e.agrees j k then some v else lookup k m

  abbrev pub contains_key : K → Assoc K V → Bool
  contains_key k m = is_some (lookup k m)

  unfoldable pub insert : K → V → Assoc K V → Assoc K V
  insert k v [] = (k, v) ∷ []
  insert k v ((j, w) ∷ m) = if e.agrees j k then (k, v) ∷ m else (j, w) ∷ insert k v m

  unfoldable pub remove : K → Assoc K V → Assoc K V
  remove k [] = []
  remove k ((j, w) ∷ m) = let rest = remove k m in if e.agrees j k then rest else (j, w) ∷ rest

  -- each key has one entry
  abbrev pub IsDistinct : Assoc K V → Type κ
  IsDistinct [] = Unit
  IsDistinct ((k, v) ∷ m) = (lookup k m ≡ none) × IsDistinct m

module _ {ℓ κ} {K : Type ℓ} {V : Type κ} where
  unfoldable pub retain : (V → Bool) → Assoc K V → Assoc K V
  retain p [] = []
  retain p ((j, w) ∷ m) = let rest = retain p m in if p w then (j, w) ∷ rest else rest
