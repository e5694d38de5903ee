-- ===== src/Exec/Keeps.antt =====
-- What an operation keeps of the world, whether it returns or fails.
use grindvakt.Prelude.{subst, Bool, true, false, if◌then◌else◌}
use grindvakt.Result.{Result, ok, err}
use grindvakt.Exec.{Exec, Returns, continue, lift, when, ◌>>=◌}

module _ {W : Type 0} (P : W → Type 0) where
  abbrev pub Keeps : {E A : Type 0} → Exec W E A → Type 0
  Keeps m = (w : W) → P w → P (m w).1

  continue-Keeps :
      {E A B : Type 0} (r : Result E A) (f : A → Exec W E B)
      → ((a : A) → Keeps (f a))
      → Keeps (continue r f)
  continue-Keeps (ok a) f k w h = k a w h
  continue-Keeps (err e) f k w h = h

  pub bind-Keeps :
      {E A B : Type 0} (m : Exec W E A) (f : A → Exec W E B)
      → Keeps m
      → ((a : A) → Keeps (f a))
      → Keeps (m >>= f)
  unfolding ◌>>=◌
  bind-Keeps m f h k w p = continue-Keeps (m w).0 f k (m w).1 (h w p)

  pub lift-Keeps :
      {E A B : Type 0} (r : Result E A) (f : A → Exec W E B)
      → ((a : A) → Keeps (f a))
      → Keeps (lift r >>= f)
  lift-Keeps r f k = bind-Keeps (lift r) f (λ w p. p) k

  pub if-Keeps :
      {E A : Type 0} (b : Bool) (m n : Exec W E A) → Keeps m → Keeps n → Keeps (if b then m else n)
  if-Keeps true m n h k = h
  if-Keeps false m n h k = k

  pub when-Keeps : {E A : Type 0} (c : Bool) (m : Exec W E A) → Keeps m → Keeps (when c m)
  unfolding when
  when-Keeps true m k = bind-Keeps m _ k λ a w h. h
  when-Keeps false m k = λ w h. h

  -- What is kept holds where the operation returns.
  pub Keeps-Returns :
      {E A : Type 0} (m : Exec W E A) (w : W) {a : A} {w' : W}
      → Returns m w a w'
      → Keeps m
      → P w
      → P w'
  Keeps-Returns m w r k h = subst P (λ i. (r i).1) (k w h)
