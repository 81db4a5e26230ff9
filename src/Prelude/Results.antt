-- ===== src/Prelude/Results.antt =====
-- The outcome of code that may throw, for any type of errors.
use mathlib.Core.Path.{◌≡◌, refl}
use mathlib.Core.Bool.{Bool, true, false}

pub data Result {κ ℓ} (X : Type κ) (A : Type ℓ) : Type (κ ⊔ ℓ) where
  ok : A → Result X A
  err : X → Result X A

infixl 5 ◌>>=◌ ◌>>◌
abbrev pub ◌>>=◌ {κ ℓ μ} :
    {X : Type κ} {A : Type ℓ} {B : Type μ} → Result X A → (A → Result X B) → Result X B
◌>>=◌ (err thrown) next = err thrown
◌>>=◌ (ok value) next = next value

abbrev pub ◌>>◌ {κ μ} : {X : Type κ} {B : Type μ} → Result X (Unit {0}) → Result X B → Result X B
first >> then_do = first >>= λ done. then_do

-- `if (!test) throw error`.
abbrev pub require {ℓ} : {E : Type ℓ} → Bool → E → Result E (Unit {0})
require true e = ok tt
require false e = err e

-- A step that succeeds is followed by the rest.
pub >>=-ok {ℓ κ μ} :
    {E : Type ℓ} {A : Type κ} {B : Type μ} (m : Result E A) (f : A → Result E B) {a : A}
    → m ≡ ok a
    → (m >>= f) ≡ f a
>>=-ok m f h = rw h

pub >>=-err {ℓ κ μ} :
    {E : Type ℓ} {A : Type κ} {B : Type μ} (m : Result E A) (f : A → Result E B) {e : E}
    → m ≡ err e
    → (m >>= f) ≡ err e
>>=-err m f h = rw h

pub require-ok {ℓ κ} :
    {E : Type ℓ} {B : Type κ} (test : Bool) (e : E) (k : Result E B)
    → test ≡ true
    → (require test e >> k) ≡ k
require-ok test e k h = rw h

-- A chain that ends well: its first step gave a value, from which the rest ended so.
pub >>=-eq-ok {κ ℓ μ} :
    {X : Type κ} {A : Type ℓ} {B : Type μ} (step : Result X A) (next : A → Result X B) {last : B}
    → (step >>= next) ≡ ok last
    → (value : A) × (step ≡ ok value) × (next value ≡ ok last)
>>=-eq-ok (err thrown) next ends = cc
>>=-eq-ok (ok value) next ends = (value, refl, ends)

-- The same where what follows cannot fail.
pub map-eq-ok {ℓ κ μ} :
    {E : Type ℓ} {A : Type κ} {B : Type μ} (m : Result E A) (f : A → B) (b : B)
    → (m >>= λ a. ok (f a)) ≡ ok b
    → (a : A) × (m ≡ ok a) × (b ≡ f a)
map-eq-ok (ok a) f b h = (a, refl, cc)
map-eq-ok (err e) f b h = cc

pub require-eq-ok {ℓ} :
    {E : Type ℓ} (b : Bool) (e : E) {u : Unit {0}} → require b e ≡ ok u → b ≡ true
require-eq-ok true e h = refl
require-eq-ok false e h = cc

pub ok-injective {ℓ κ} :
    {E : Type ℓ} {A : Type κ} {a b : A} → ◌≡◌ {A = Result E A} (ok a) (ok b) → a ≡ b
ok-injective h = cc
