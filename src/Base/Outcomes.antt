-- ===== src/Base/Outcomes.antt =====
-- What holds of the result of a chain of steps, if it returns: a postcondition with its rules.
use mathlib.Core.Path.{◌≡◌, refl, subst}
use mathlib.Core.Bool.{Bool, true, false}
use mathlib.Core.Option.{Option, none, some}
use xtern.Base.Tests.{if◌then◌else◌, ◌>>=◌, eq_of_some}

pub data Every {A : Type 0} (P : A → Type 0) : Option A → Type 0 where
  fault : Every P none
  gives : {a : A} → P a → Every P (some a)

-- The rule of a chain: what holds of the first step's result is known to the rest.
pub Every-bind :
    {A B : Type 0} {P : A → Type 0} {Q : B → Type 0} (m : Option A) (f : A → Option B)
    → Every P m
    → ((a : A) → P a → Every Q (f a))
    → Every Q (m >>= f)
Every-bind none f e k = fault
Every-bind (some a) f (gives p) k = k a p

-- The same where nothing is known of the first step.
pub Every-any :
    {A B : Type 0} {Q : B → Type 0} (m : Option A) (f : A → Option B)
    → ((a : A) → Every Q (f a))
    → Every Q (m >>= f)
Every-any none f k = fault
Every-any (some a) f k = k a

-- The same where the first step's equation is kept.
pub Every-eq :
    {A B : Type 0} {Q : B → Type 0} (m : Option A) (f : A → Option B)
    → ((a : A) → m ≡ some a → Every Q (f a))
    → Every Q (m >>= f)
Every-eq none f k = fault
Every-eq (some a) f k = k a refl

pub Every-if :
    {A : Type 0} {P : A → Type 0} (b : Bool) (x y : Option A)
    → Every P x
    → Every P y
    → Every P (if b then x else y)
Every-if true x y p q = p
Every-if false x y p q = q

pub Every-weaken :
    {A : Type 0} {P Q : A → Type 0} (m : Option A) → Every P m → ((a : A) → P a → Q a) → Every Q m
Every-weaken none e k = fault
Every-weaken (some a) (gives p) k = gives (k a p)

pub Every-result :
    {A : Type 0} {P : A → Type 0} (m : Option A) (a : A) → Every P m → m ≡ some a → P a
Every-result none a e h = cc
Every-result {P} (some b) a (gives p) h = subst P (eq_of_some b a h) p
