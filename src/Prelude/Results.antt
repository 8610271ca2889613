-- ===== src/Prelude/Results.antt =====
-- Calls that return a value or raise: an exception is a value of E.
use mathlib.Core.Path.{◌≡◌, refl, ap}
use mathlib.Core.Bool.{Bool, true, false}
use mathlib.Core.Option.{Option, none, some}

pub data Result (E A : Type 0) : Type 0 where
  ok : A → Result E A
  raise : E → Result E A

infixl 5 ◌>>=◌ ◌>>◌
unfoldable pub ◌>>=◌ : {E A B : Type 0} → Result E A → (A → Result E B) → Result E B
ok a >>= next = next a
raise e >>= next = raise e

unfoldable pub ◌>>◌ : {E B : Type 0} → Result E (Unit {0}) → Result E B → Result E B
unfolding ◌>>=◌
first >> next = first >>= λ u. next

-- `if not b: raise e`
unfoldable pub require : {E : Type 0} → Bool → E → Result E (Unit {0})
require true e = ok tt
require false e = raise e

-- a call that answers none or raises, where none means the exception e
unfoldable pub or_raise : {E A : Type 0} → Option A → E → Result E A
or_raise (some a) e = ok a
or_raise none e = raise e

abbrev ok_or : {E A : Type 0} → A → Result E A → A
ok_or a (ok b) = b
ok_or a (raise e) = a

pub ok-injective : {E A : Type 0} {a b : A} → ◌≡◌ {A = Result E A} (ok a) (ok b) → a ≡ b
ok-injective {a = a} h = ap (ok_or a) h

pub or_raise-inv :
    {E A B : Type 0} (o : Option A) (e : E) (next : A → Result E B) {b : B}
    → (or_raise o e >>= next) ≡ ok b
    → (a : A) × (o ≡ some a) × (next a ≡ ok b)
unfolding ◌>>=◌ ◌>>◌ require or_raise
or_raise-inv (some a) e next h = (a, refl, h)
or_raise-inv none e next h = cc

pub require-inv :
    {E B : Type 0} (t : Bool) (e : E) (next : Result E B) {b : B}
    → (require t e >> next) ≡ ok b
    → (t ≡ true) × (next ≡ ok b)
unfolding ◌>>=◌ ◌>>◌ require or_raise
require-inv true e next h = (refl, h)
require-inv false e next h = cc

pub or_raise-some :
    {E A B : Type 0} (o : Option A) (e : E) (next : A → Result E B) (a : A)
    → o ≡ some a
    → (or_raise o e >>= next) ≡ next a
unfolding ◌>>=◌ ◌>>◌ require or_raise
or_raise-some (some b) e next a h = cc
or_raise-some none e next a h = cc

pub require-true :
    {E B : Type 0} (t : Bool) (e : E) (next : Result E B) → t ≡ true → (require t e >> next) ≡ next
unfolding ◌>>=◌ ◌>>◌ require or_raise
require-true true e next h = refl
require-true false e next h = cc

pub bind-inv :
    {E A B : Type 0} (m : Result E A) (next : A → Result E B) {b : B}
    → (m >>= next) ≡ ok b
    → (a : A) × (m ≡ ok a) × (next a ≡ ok b)
unfolding ◌>>=◌
bind-inv (ok a) next h = (a, refl, h)
bind-inv (raise e) next h = cc

pub bind-ok :
    {E A B : Type 0} (m : Result E A) (next : A → Result E B) (a : A)
    → m ≡ ok a
    → (m >>= next) ≡ next a
unfolding ◌>>=◌
bind-ok (ok b) next a h = ap next (ok-injective h)
bind-ok (raise e) next a h = cc
