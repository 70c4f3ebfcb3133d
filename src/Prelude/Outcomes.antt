-- ===== src/Prelude/Outcomes.antt =====
-- What a block of fallible steps returns, if it returns: one rule for each way to build it.
use mathlib.Core.Path.{◌≡◌, refl, subst}
use mathlib.Core.Bool.{Bool, true, false}
use localcloud_cli.Prelude.Tests.{if◌then◌else◌}
use localcloud_cli.Prelude.Errors.{Result, ok, raise, Exception, ◌>>=◌, ok-injective, raise_if}

pub record Returns {A : Type 0} (P : A → Type 0) (r : Result A) : Type 0 where
  pub at : (a : A) → r ≡ ok a → P a

module _ {A : Type 0} {P : A → Type 0} where
  pub Returns-ok : (a : A) → P a → Returns P (ok a)
  Returns-ok a p = record { at = λ b e. subst P (ok-injective a b e) p }

  pub Returns-raise : (e : Exception) → Returns P (raise e)
  Returns-raise e = record { at = λ a h. cc }

  pub Returns-if :
      (b : Bool) (m n : Result A)
      → (b ≡ true → Returns P m)
      → (b ≡ false → Returns P n)
      → Returns P (if b then m else n)
  Returns-if true m n h k = h refl
  Returns-if false m n h k = k refl

pub Returns-any : {A : Type 0} (r : Result A) → Returns (λ a. r ≡ ok a) r
Returns-any r = record { at = λ a h. h }

module _ {A B : Type 0} {P : A → Type 0} {Q : B → Type 0} where
  pub Returns-bind :
      (m : Result A) (f : A → Result B)
      → Returns P m
      → ((a : A) → P a → Returns Q (f a))
      → Returns Q (m >>= f)
  Returns-bind (ok a) f h k = k a (h.at a refl)
  Returns-bind (raise e) f h k = Returns-raise e

module _ {A B : Type 0} {Q : B → Type 0} where
  pub Returns-after :
      (m : Result A) (f : A → Result B)
      → ((a : A) → m ≡ ok a → Returns Q (f a))
      → Returns Q (m >>= f)
  Returns-after m f k = Returns-bind {P = λ a. m ≡ ok a} m f (Returns-any m) k

-- After a guard its test is known to fail.
pub Returns-raise_if : (b : Bool) (e : Exception) → Returns (λ u. b ≡ false) (raise_if b e)
Returns-raise_if true e = Returns-raise e
Returns-raise_if false e = Returns-ok tt refl

-- Which exceptions a block of fallible steps can raise.
pub record Raises {A : Type 0} (P : Exception → Type 0) (r : Result A) : Type 0 where
  pub at : (e : Exception) → r ≡ raise e → P e

raise-injective : {A : Type 0} {a b : Exception} → ◌≡◌ {A = Result A} (raise a) (raise b) → a ≡ b
raise-injective h = cc

module _ {A : Type 0} {P : Exception → Type 0} where
  pub Raises-ok : (a : A) → Raises P (ok a)
  Raises-ok a = record { at = λ e h. cc }

  pub Raises-raise : (e : Exception) → P e → Raises {A = A} P (raise e)
  Raises-raise e p = record { at = λ e' h. subst P (raise-injective {A = A} h) p }

  pub Raises-if :
      (b : Bool) (m n : Result A) → Raises P m → Raises P n → Raises P (if b then m else n)
  Raises-if true m n h k = h
  Raises-if false m n h k = k

pub Raises-raise_if :
    {P : Exception → Type 0} (b : Bool) (e : Exception) → P e → Raises P (raise_if b e)
Raises-raise_if true e p = Raises-raise e p
Raises-raise_if false e p = Raises-ok tt

module _ {A B : Type 0} {P : Exception → Type 0} where
  pub Raises-after :
      (m : Result A) (f : A → Result B)
      → Raises P m
      → ((a : A) → m ≡ ok a → Raises P (f a))
      → Raises P (m >>= f)
  Raises-after (ok a) f h k = k a refl
  Raises-after (raise e) f h k = Raises-raise e (h.at e refl)

-- The second block returns whatever the first one returns.
pub record Agrees {A : Type 0} (r s : Result A) : Type 0 where
  pub at : (a : A) → r ≡ ok a → s ≡ ok a

pub Agrees-refl : {A : Type 0} (r : Result A) → Agrees r r
Agrees-refl r = record { at = λ a h. h }

module _ {A B : Type 0} where
  pub Agrees-bind :
      (m n : Result A) (f g : A → Result B)
      → Agrees m n
      → ((a : A) → Agrees (f a) (g a))
      → Agrees (m >>= f) (n >>= g)
  Agrees-bind (raise e) n f g h k = record { at = λ b e'. cc }
  Agrees-bind (ok a) n f g h k = record { at = λ b e'. rw (h.at a refl) ((k a).at b e') }

pub Returns-mono :
    {A : Type 0} {P Q : A → Type 0} (r : Result A)
    → ((a : A) → P a → Q a)
    → Returns P r
    → Returns Q r
Returns-mono r f h = record { at = λ a e. f a (h.at a e) }
