-- ===== src/Exec.antt =====
-- Fallible operations that change the world: the stores behind locks, the clock, the randomness.
-- What was changed before an error stays changed.
pub mod Keeps
pub mod Fails
use mathlib.Core.Option.{some-injective}
use grindvakt.Prelude.{◌≡◌, refl, ap, ◌∙◌, Bool, true, false, Option, none, some, is_some, sym}
use grindvakt.Result
use grindvakt.Result.{Result, ok, err, ok_injective}

abbrev pub Exec : Type 0 → Type 0 → Type 0 → Type 0
Exec W E A = W → Result E A × W

module _ {W E A : Type 0} where
  abbrev pub pure : A → Exec W E A
  pure a w = (ok a, w)

  abbrev pub raise : E → Exec W E A
  raise e w = (err e, w)

  abbrev pub lift : Result E A → Exec W E A
  lift r w = (r, w)

  -- An operation that cannot fail.
  abbrev pub run : (W → A × W) → Exec W E A
  run m w = (ok (m w).0, (m w).1)

module _ {W E A B : Type 0} where
  abbrev pub continue : Result E A → (A → Exec W E B) → Exec W E B
  continue (ok a) f w = f a w
  continue (err e) f w = (err e, w)

  infixl 5 ◌>>=◌
  unfoldable pub ◌>>=◌ : Exec W E A → (A → Exec W E B) → Exec W E B
  ◌>>=◌ m f w = continue (m w).0 f (m w).1

infixl 5 ◌>>◌
abbrev pub ◌>>◌ : {W E B : Type 0} → Exec W E (Unit {0}) → Exec W E B → Exec W E B
◌>>◌ m k = m >>= λ _. k

-- `m` started at `w` returns `a` and leaves `w'`.
abbrev pub Returns : {W E A : Type 0} → Exec W E A → W → A → W → Type 0
Returns m w a w' = m w ≡ (ok a, w')

module _ {W E A B : Type 0} where
  continue-eq-ok :
      (r : Result E A) (f : A → Exec W E B) (w : W) {b : B} {w' : W}
      → continue r f w ≡ (ok b, w')
      → (a : A) × (r ≡ ok a) × (f a w ≡ (ok b, w'))
  continue-eq-ok (ok a) f w h = (a, refl, h)
  continue-eq-ok (err e) f w h = cc (ap (λ (p : Result E B × W). p.0) h)

  -- A block that returns has returned at its first step, and the rest returns.
  bind-Returns :
      (m : Exec W E A) (f : A → Exec W E B) (w : W) {b : B} {w' : W}
      → Returns (m >>= f) w b w'
      → (a : A) × (w₁ : W) × Returns m w a w₁ × Returns (f a) w₁ b w'
  unfolding ◌>>=◌
  bind-Returns m f w h =
      let (a, e, rest) = continue-eq-ok (m w).0 f (m w).1 h in
      (a, (m w).1, (λ i. (e i, (m w).1)), rest)

  pub after :
      (m : Exec W E A) (f : A → Exec W E B) (w : W) {b : B} {w' : W} {Q : Type 0}
      → ◌>>=◌ m f w ≡ (ok b, w')
      → ((a : A) (w₁ : W) → m w ≡ (ok a, w₁) → f a w₁ ≡ (ok b, w') → Q)
      → Q
  after m f w h k = let (a, w₁, e, rest) = bind-Returns m f w h in k a w₁ e rest

  -- The same where the first step is a result, which leaves the world alone.
  pub after_lift :
      (r : Result E A) (f : A → Exec W E B) (w : W) {b : B} {w' : W} {Q : Type 0}
      → ◌>>=◌ (lift r) f w ≡ (ok b, w')
      → ((a : A) → r ≡ ok a → f a w ≡ (ok b, w') → Q)
      → Q
  unfolding ◌>>=◌
  after_lift r f w h k = let (a, e, rest) = continue-eq-ok r f w h in k a e rest

  -- A block whose first step returns goes on with the rest.
  pub onward :
      (m : Exec W E A) (f : A → Exec W E B) (w : W) {a : A} {w₁ : W}
      → Returns m w a w₁
      → ◌>>=◌ m f w ≡ f a w₁
  unfolding ◌>>=◌
  onward m f w e i = continue (e i).0 f (e i).1

  pub onward_lift :
      (r : Result E A) (f : A → Exec W E B) (w : W) {a : A} → r ≡ ok a → ◌>>=◌ (lift r) f w ≡ f a w
  unfolding ◌>>=◌
  onward_lift r f w e i = continue (e i) f w

-- `m.map_err(f)?`
abbrev pub map_err : {W E F A : Type 0} → (E → F) → Exec W E A → Exec W F A
map_err f m w = (Result.map_err f (m w).0, (m w).1)

pub map_err-Returns :
    {W E F A : Type 0} (f : E → F) (m : Exec W E A) (w : W) {a : A} {w' : W}
    → Returns (map_err f m) w a w'
    → Returns m w a w'
map_err-Returns f m w h =
    let e = Result.map_err-eq-ok f (m w).0 (λ i. (h i).0) in λ i. (e i, (h i).1)

-- `if b { Some(m?) } else { None }`
unfoldable pub when : {W E A : Type 0} → Bool → Exec W E A → Exec W E (Option A)
when true m = m >>= λ a. pure (some a)
when false m = pure none

-- A conditional step has a value exactly under its condition.
pub when-is_some :
    {W E A : Type 0} (c : Bool) (m : Exec W E A) (w : W) {o : Option A} {w' : W}
    → when c m w ≡ (ok o, w')
    → is_some o ≡ c
unfolding when
when-is_some true m w h = after _ _ _ h λ a w₁ e k. ap is_some (sym (ok_injective (λ i. (k i).0)))
when-is_some false m w h = ap is_some (sym (ok_injective (λ i. (h i).0)))

pub when-eq-some :
    {W E A : Type 0} (c : Bool) (m : Exec W E A) (w : W) {o : Option A} {a : A} {w' : W}
    → o ≡ some a
    → when c m w ≡ (ok o, w')
    → m w ≡ (ok a, w')
unfolding when
when-eq-some true m w {a = a} q h = after _ _ _ h λ x w₁ e k.
    let same = ok_injective (λ i. (k i).0) ∙ q in
    e ∙ (λ i. (ok (some-injective x a same i), (k i).1))
when-eq-some false m w q h = cc (ok_injective (λ i. (h i).0), q)

-- An error is no answer.
pub raise-Returns :
    {W E A : Type 0} {Q : Type 0} {e : E} {w w' : W} {a : A}
    → ◌≡◌ {A = Result E A × W} (err e, w) (ok a, w')
    → Q
raise-Returns {W = W} {E = E} {A = A} h = cc (ap (λ (x : Result E A × W). x.0) h)

-- A conditional step that can return does, with a value of the step under its condition.
pub when_lem :
    {W E A : Type 0} (c : Bool) (m : Exec W E A) (w : W)
    → (a : A) × (w' : W) × Returns m w a w'
    → (o : Option A) × (w' : W) × Returns (when c m) w o w'
      × (c ≡ true → (a : A) × (o ≡ some a) × Returns m w a w')
unfolding when
when_lem true m w (a, w', h) = (some a, w', onward m _ w h, λ e. (a, refl, h))
when_lem false m w r = (none, w, refl, λ e. cc)
