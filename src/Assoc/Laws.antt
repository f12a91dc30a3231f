-- ===== src/Assoc/Laws.antt =====
-- Maps as lists: each operation against lookup, distinctness and size.
use surmount_server.Prelude.{
  suc, ◌≤◌, Bool, Option, none, some, [], ◌∷◌, ◌≡◌, refl, arith, Eq, if◌then◌else◌, length,
}
use surmount_server.Assoc.{Assoc, lookup, contains_key, insert, remove, retain, IsDistinct}

abbrev pub keep {ℓ} : {V : Type ℓ} → (V → Bool) → Option V → Option V
keep p none = none
keep p (some v) = if p v then some v else none

module _ {ℓ κ} {K : Type ℓ} {V : Type κ} ⦃e : Eq K⦄ where
  pub lookup-insert :
      (k j : K) (v : V) (m : Assoc K V)
      → lookup j (insert k v m) ≡ (if e.agrees k j then some v else lookup j m)
  unfolding lookup insert
  lookup-insert k j v [] = refl
  lookup-insert k j v ((i, w) ∷ m) =
      ground (arith, e.agrees_iff k j, e.agrees_iff i k, e.agrees_iff i j, lookup-insert k j v m)

  pub lookup-remove :
      (k j : K) (m : Assoc K V)
      → lookup j (remove k m) ≡ (if e.agrees k j then none else lookup j m)
  unfolding lookup remove
  lookup-remove k j [] = ground arith
  lookup-remove k j ((i, w) ∷ m) =
      ground (arith, e.agrees_iff k j, e.agrees_iff i k, e.agrees_iff i j, lookup-remove k j m)

  pub lookup-retain-none :
      (p : V → Bool) (k : K) (m : Assoc K V) → lookup k m ≡ none → lookup k (retain p m) ≡ none
  unfolding lookup retain
  lookup-retain-none p k [] h = refl
  lookup-retain-none p k ((i, w) ∷ m) h = ground (arith, lookup-retain-none p k m)

  pub lookup-retain :
      (p : V → Bool) (k : K) (m : Assoc K V)
      → IsDistinct m
      → lookup k (retain p m) ≡ keep p (lookup k m)
  unfolding lookup retain
  lookup-retain p k [] h = refl
  lookup-retain p k ((i, w) ∷ m) (fresh, h) =
      ground (arith, e.agrees_iff i k, lookup-retain p k m h, lookup-retain-none p i m fresh)

  pub IsDistinct-insert : (k : K) (v : V) (m : Assoc K V) → IsDistinct m → IsDistinct (insert k v m)
  unfolding lookup insert
  IsDistinct-insert k v [] h = (refl, tt)
  IsDistinct-insert k v ((i, w) ∷ m) (fresh, h) =
      ground (
        arith,
        e.agrees_iff i k,
        e.agrees_iff k i,
        lookup-insert k i v m,
        IsDistinct-insert k v m h,
      )

  pub IsDistinct-remove : (k : K) (m : Assoc K V) → IsDistinct m → IsDistinct (remove k m)
  unfolding lookup remove
  IsDistinct-remove k [] h = tt
  IsDistinct-remove k ((i, w) ∷ m) (fresh, h) =
      ground (arith, lookup-remove k i m, IsDistinct-remove k m h)

  pub IsDistinct-retain : (p : V → Bool) (m : Assoc K V) → IsDistinct m → IsDistinct (retain p m)
  unfolding retain
  IsDistinct-retain p [] h = tt
  IsDistinct-retain p ((i, w) ∷ m) (fresh, h) =
      ground (arith, lookup-retain-none p i m fresh, IsDistinct-retain p m h)

  pub length-insert :
      (k : K) (v : V) (m : Assoc K V)
      → length (insert k v m) ≡ (if contains_key k m then length m else suc (length m))
  unfolding lookup insert
  length-insert k v [] = refl
  length-insert k v ((i, w) ∷ m) = ground (arith, length-insert k v m)

module _ {ℓ κ} {K : Type ℓ} {V : Type κ} where
  pub length-retain : (p : V → Bool) (m : Assoc K V) → length (retain p m) ≤ length m
  unfolding retain
  length-retain p [] = omega arith
  length-retain p ((i, w) ∷ m) = ground (arith, length-retain p m)
