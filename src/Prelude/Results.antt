-- ===== src/Prelude/Results.antt =====
-- Rust's `Result`, with `?` as the bind of a `do` block.
use mathlib.Core.Path.{◌≡◌, refl}
use mathlib.Core.Logic.{◌⊎◌, inl, inr}
use mathlib.Core.Bool.{Bool, true, false}
use mathlib.Core.Option.{Option, none, some}
use surmount_server.Prelude.Tests.{if◌then◌else◌}

pub data Result {ℓ κ} (E : Type ℓ) (A : Type κ) : Type (ℓ ⊔ κ) where
  ok : A → Result E A
  err : E → Result E A

abbrev pub ◌>>=◌ {ℓ κ μ} :
    {E : Type ℓ} {A : Type κ} {B : Type μ} (first : Result E A) (next : A → Result E B) → Result E B
err failure >>= next = err failure
ok value >>= next = next value

abbrev pub ◌>>◌ {ℓ μ} :
    {E : Type ℓ} {B : Type μ} (first : Result E (Unit {0})) (second : Result E B) → Result E B
first >> second = first >>= λ done. second

infixl 5 ◌>>=◌ ◌>>◌
-- an error where a test fails
abbrev pub guard {ℓ} : {E : Type ℓ} (test : Bool) (failure : E) → Result E (Unit {0})
guard false failure = err failure
guard true failure = ok tt

abbrev pub ok_or {ℓ κ} : {E : Type ℓ} {A : Type κ} → Option A → E → Result E A
ok_or none e = err e
ok_or (some a) e = ok a

abbrev pub map_err {ℓ κ μ} :
    {E : Type ℓ} {F : Type κ} {A : Type μ} → (E → F) → Result E A → Result F A
map_err f (ok a) = ok a
map_err f (err e) = err (f e)

-- A chain that succeeds began with a success, and went on from its value.
pub >>=-eq-ok {ℓ κ μ} :
    {E : Type ℓ} {A : Type κ} {B : Type μ} {result : B} (first : Result E A) (next : A → Result E B)
    → (first >>= next) ≡ ok result
    → (value : A) × (first ≡ ok value) × (next value ≡ ok result)
>>=-eq-ok (err failure) next chain = cc
>>=-eq-ok (ok value) next chain = (value, refl, chain)

pub ok-injective {ℓ κ} :
    {E : Type ℓ} {A : Type κ} {a b : A} → ◌≡◌ {A = Result E A} (ok a) (ok b) → a ≡ b
ok-injective h = cc

-- What a chain that succeeds went through, step by step.
pub ok_or-chain {ℓ κ μ} :
    {E : Type ℓ} {A : Type κ} {B : Type μ} {result : B} (failure : E)
    → (found : Option A) (next : A → Result E B) → (ok_or found failure >>= next) ≡ ok result
    → (value : A) × (found ≡ some value) × (next value ≡ ok result)
ok_or-chain failure none next chain = cc
ok_or-chain failure (some value) next chain = (value, refl, chain)

pub guard-chain {ℓ μ} :
    {E : Type ℓ} {B : Type μ} {result : B} (failure : E) (test : Bool)
    → (next : Unit {0} → Result E B) → (guard test failure >>= next) ≡ ok result
    → (test ≡ true) × (next tt ≡ ok result)
guard-chain failure false next chain = cc
guard-chain failure true next chain = (refl, chain)

pub guard-if {ℓ μ} :
    {E : Type ℓ} {B : Type μ} (test : Bool) (failure : E) (last : Result E B)
    → (guard test failure >>= λ done. last) ≡ (if test then last else err failure)
guard-if true failure last = refl
guard-if false failure last = refl

pub Result-cases {ℓ κ} :
    {E : Type ℓ} {A : Type κ} (r : Result E A) → ((a : A) × (r ≡ ok a)) ⊎ ((e : E) × (r ≡ err e))
Result-cases (ok a) = inl (a, refl)
Result-cases (err e) = inr (e, refl)

-- `?` on an `Option`
abbrev pub and_then {ℓ κ} :
    {A : Type ℓ} {B : Type κ} (found : Option A) (next : A → Option B) → Option B
and_then none next = none
and_then (some value) next = next value

pub and_then-chain {ℓ κ} :
    {A : Type ℓ} {B : Type κ} {result : B} (found : Option A) (next : A → Option B)
    → and_then found next ≡ some result
    → (value : A) × (found ≡ some value) × (next value ≡ some result)
and_then-chain none next chain = cc
and_then-chain (some value) next chain = (value, refl, chain)
