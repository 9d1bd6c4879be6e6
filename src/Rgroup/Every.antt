-- ===== src/Rgroup/Every.antt =====
-- Properties of a result, if there is one.
use arcus_c_client.Prelude.{◌≡◌, refl, Bool, true, false, Option, none, some, if◌then◌else◌}
use arcus_c_client.Rgroup.{◌>>=◌}

-- A result, if there is one, has a property.
abbrev pub Every {ℓ κ} : {A : Type ℓ} → (A → Type κ) → Option A → Type κ
Every P none = Unit
Every P (some a) = P a

pub Every-bind {ℓ κ m n} :
    {A : Type ℓ} {B : Type κ} (P : A → Type m) (Q : B → Type n) (r : Option A) (f : A → Option B)
    → Every P r
    → ((a : A) → P a → Every Q (f a))
    → Every Q (r >>= f)
Every-bind P Q none f h k = tt
Every-bind P Q (some a) f h k = k a h

pub Every-if {ℓ κ} :
    {A : Type ℓ} (P : A → Type κ) (b : Bool) (x y : Option A)
    → (b ≡ true → Every P x)
    → Every P y
    → Every P (if b then x else y)
Every-if P true x y h k = h refl
Every-if P false x y h k = k

pub Every-any {ℓ} : {A : Type ℓ} (r : Option A) → Every {ℓ, 0} (λ (_ : A). Unit) r
Every-any none = tt
Every-any (some a) = tt

-- A result that is `some` has the property.
pub Every-some {ℓ κ} :
    {A : Type ℓ} (P : A → Type κ) (r : Option A) (a : A) → r ≡ some a → Every P r → P a
Every-some P r a e h = rw e at h
