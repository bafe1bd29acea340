-- ===== src/Common/Outcomes.antt =====
-- What a piece of the C++ code does: it ends with a value, or it faults.
use mathlib.Core.Bool.{Bool, true, false}
use mathlib.Core.Path.{◌≡◌, refl, ap, subst}
use mathlib.Core.Logic.{◌≢◌}
use mathlib.Core.Option.{Option, none, some}

-- `fault` is a failed `assert`, an exception, which nothing in the code catches, or undefined behaviour
-- such as an access outside a span or a `pop` of an empty queue. Nothing is said of what the program
-- does after it.
pub data Outcome {ℓ} (A : Type ℓ) : Type ℓ where
  ok : A → Outcome A
  fault : Outcome A

infixl 5 ◌>>=◌ ◌>>◌
abbrev pub ◌>>=◌ {ℓ κ} : {A : Type ℓ} {B : Type κ} → Outcome A → (A → Outcome B) → Outcome B
ok a >>= f = f a
fault >>= f = fault

abbrev pub ◌>>◌ {ℓ} : {B : Type ℓ} → Outcome (Unit {0}) → Outcome B → Outcome B
m >> k = m >>= λ _. k

-- `assert(b)`.
abbrev pub check : Bool → Outcome (Unit {0})
check true = ok tt
check false = fault

abbrev value_or {ℓ} : {A : Type ℓ} → A → Outcome A → A
value_or a (ok b) = b
value_or a fault = a

pub ok-injective {ℓ} : {A : Type ℓ} {a b : A} → ok a ≡ ok b → a ≡ b
ok-injective {a = a} h = ap (value_or a) h

-- `expected<A, E>` of common/types.h, which is the third-party `tl::expected`.
pub data Expected {ℓ κ} (E : Type ℓ) (A : Type κ) : Type (ℓ ⊔ κ) where
  value : A → Expected E A
  unexpected : E → Expected E A

-- The code ends with a value.
abbrev pub Returns {ℓ} : {A : Type ℓ} → Outcome A → Type ℓ
Returns {A} m = (a : A) × (m ≡ ok a)

-- A chain that returns has returned in between.
pub >>=-eq-ok {ℓ κ} :
    {B : Type κ} {last : B} {A : Type ℓ} (first : Outcome A) (next : A → Outcome B)
    → (first >>= next) ≡ ok last
    → (middle : A) × (first ≡ ok middle) × (next middle ≡ ok last)
>>=-eq-ok fault next run = cc
>>=-eq-ok (ok middle) next run = (middle, refl, run)

-- The result, if the code ends with one, has a property.
abbrev pub Ensures {ℓ κ} : {A : Type ℓ} → (A → Type κ) → Outcome A → Type κ
Ensures P fault = Unit
Ensures P (ok a) = P a

pub >>=-Ensures {ℓ κ μ} :
    {A : Type ℓ} {B : Type κ} (P : B → Type μ) (m : Outcome A) (next : A → Outcome B)
    → ((a : A) → m ≡ ok a → Ensures P (next a))
    → Ensures P (m >>= next)
>>=-Ensures P fault next h = tt
>>=-Ensures P (ok a) next h = h a refl

pub Ensures-ok {ℓ κ} :
    {A : Type ℓ} (P : A → Type κ) (m : Outcome A) (a : A) → m ≡ ok a → Ensures P m → P a
Ensures-ok P m a run h = subst (Ensures P) run h

pub Ensures-weaken {ℓ κ} :
    {A : Type ℓ} (P Q : A → Type κ) (m : Outcome A)
    → ((a : A) → P a → Q a)
    → Ensures P m
    → Ensures Q m
Ensures-weaken P Q fault w h = tt
Ensures-weaken P Q (ok a) w h = w a h

-- A result that there is.
abbrev pub IsSome {ℓ} : {A : Type ℓ} → Option A → Type 0
IsSome none = ⊥
IsSome (some a) = Unit

pub Ensures-ne-none {ℓ} : {A : Type ℓ} (m : Outcome (Option A)) → Ensures IsSome m → m ≢ ok none
Ensures-ne-none m h run = Ensures-ok IsSome m none run h

pub Ensures-map {ℓ κ} :
    {A : Type ℓ} {B : Type κ} (m : Outcome (Option A)) (f : A → B)
    → Ensures IsSome m
    → Ensures IsSome (m >>= λ o. ok (elim o [ none ↦ none | some a ↦ some (f a) ]))
Ensures-map fault f h = tt
Ensures-map (ok none) f h = h
Ensures-map (ok (some a)) f h = tt

-- The same step, and after it the same in each case.
pub >>=-eq {ℓ κ} :
    {A : Type ℓ} {B : Type κ} (m : Outcome A) (f g : A → Outcome B)
    → ((a : A) → f a ≡ g a)
    → (m >>= f) ≡ (m >>= g)
>>=-eq fault f g h = refl
>>=-eq (ok a) f g h = h a
