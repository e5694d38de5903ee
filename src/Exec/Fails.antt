-- ===== src/Exec/Fails.antt =====
-- With which errors an operation may fail.
use grindvakt.Prelude.{Bool, true, false, Option, none, some, if◌then◌else◌}
use grindvakt.Result
use grindvakt.Result.{Result, ok, err, fail_if, ok_or}
use grindvakt.Exec.{Exec, continue, lift, run, when, ◌>>=◌}

module _ {E : Type 0} (P : E → Type 0) where
  -- Every error of the result meets `P`.
  abbrev pub FailsWith : {A : Type 0} → Result E A → Type 0
  FailsWith (ok a) = Unit {0}
  FailsWith (err e) = P e

  -- Every error of the operation, at any world, meets `P`.
  abbrev pub Fails : {W A : Type 0} → Exec W E A → Type 0
  Fails {W} m = (w : W) → FailsWith (m w).0

  pub fail_if-FailsWith : (b : Bool) (e : E) → P e → FailsWith (fail_if b e)
  fail_if-FailsWith true e h = h
  fail_if-FailsWith false e h = tt

  pub ok_or-FailsWith : {A : Type 0} (o : Option A) (e : E) → P e → FailsWith (ok_or o e)
  ok_or-FailsWith none e h = h
  ok_or-FailsWith (some a) e h = tt

  pub map_err-FailsWith :
      {F A : Type 0} (f : F → E) (r : Result F A)
      → ((x : F) → P (f x))
      → FailsWith (Result.map_err f r)
  map_err-FailsWith f (ok a) h = tt
  map_err-FailsWith f (err x) h = h x

  pub step-FailsWith :
      {A B : Type 0} (r : Result E A) (f : A → Result E B)
      → FailsWith r
      → ((a : A) → FailsWith (f a))
      → FailsWith (Result.◌>>=◌ r f)
  step-FailsWith (ok a) f h k = k a
  step-FailsWith (err e) f h k = h

  pub guard-FailsWith :
      {A : Type 0} (b : Bool) (e : E) (r : Result E A)
      → P e
      → FailsWith r
      → FailsWith (Result.◌>>◌ (fail_if b e) r)
  guard-FailsWith true e r h k = h
  guard-FailsWith false e r h k = k

  continue-FailsWith :
      {W A B : Type 0} (r : Result E A) (f : A → Exec W E B) (w : W)
      → FailsWith r
      → ((a : A) → Fails (f a))
      → FailsWith (continue r f w).0
  continue-FailsWith (ok a) f w h k = k a w
  continue-FailsWith (err e) f w h k = h

  pub bind-Fails :
      {W A B : Type 0} (m : Exec W E A) (f : A → Exec W E B)
      → Fails m
      → ((a : A) → Fails (f a))
      → Fails (m >>= f)
  unfolding ◌>>=◌
  bind-Fails m f h k w = continue-FailsWith (m w).0 f (m w).1 (h w) k

  pub lift-Fails :
      {W A B : Type 0} (r : Result E A) (f : A → Exec W E B)
      → FailsWith r
      → ((a : A) → Fails (f a))
      → Fails (lift r >>= f)
  lift-Fails r f h k = bind-Fails (lift r) f (λ w. h) k

  pub run-Fails :
      {W A B : Type 0} (m : W → A × W) (f : A → Exec W E B)
      → ((a : A) → Fails (f a))
      → Fails (run m >>= f)
  run-Fails m f k = bind-Fails (run m) f (λ w. tt) k

  pub if-Fails :
      {W A : Type 0} (b : Bool) (m n : Exec W E A) → Fails m → Fails n → Fails (if b then m else n)
  if-Fails true m n h k = h
  if-Fails false m n h k = k

  pub when-Fails : {W A : Type 0} (c : Bool) (m : Exec W E A) → Fails m → Fails (when c m)
  unfolding when
  when-Fails true m k = bind-Fails m _ k λ a w. tt
  when-Fails false m k = λ w. tt
