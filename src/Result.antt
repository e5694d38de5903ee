-- ===== src/Result.antt =====
-- `Result<A, E>`, with `?` as the bind.
use mathlib.Core.Option.{some-injective}
use grindvakt.Prelude.{
  ◌≡◌, refl, ap, ◌∙◌, ◌↔◌, ◌⊎◌, inl, inr, Option, none, some, Bool, true, false, List, [], ◌∷◌, All,
  if◌then◌else◌,
}

pub data Result {ℓ κ} (E : Type ℓ) (A : Type κ) : Type (ℓ ⊔ κ) where
  ok : A → Result E A
  err : E → Result E A

infixl 5 ◌>>=◌ ◌>>◌
abbrev pub ◌>>=◌ : {E A B : Type 0} → Result E A → (A → Result E B) → Result E B
ok a >>= f = f a
err e >>= f = err e

abbrev pub ◌>>◌ : {E B : Type 0} → Result E (Unit {0}) → Result E B → Result E B
m >> k = m >>= λ _. k

-- `if b { return Err(e) }`
abbrev pub fail_if : {E : Type 0} → Bool → E → Result E (Unit {0})
fail_if true e = err e
fail_if false e = ok tt

-- `o.ok_or_else(|| e)`
abbrev pub ok_or : {E A : Type 0} → Option A → E → Result E A
ok_or none e = err e
ok_or (some a) e = ok a

-- `r.map_err(|_| e)`
abbrev pub map_err : {E F A : Type 0} → (E → F) → Result E A → Result F A
map_err f (ok a) = ok a
map_err f (err e) = err (f e)

abbrev pub map_ok : {E A B : Type 0} → (A → B) → Result E A → Result E B
map_ok f (ok a) = ok (f a)
map_ok f (err e) = err e

pub >>=-eq-ok :
    {E A B : Type 0} {last : B} (first : Result E A) (next : A → Result E B)
    → (first >>= next) ≡ ok last
    → (given : A) × (first ≡ ok given) × (next given ≡ ok last)
>>=-eq-ok (ok given) next h = (given, refl, h)
>>=-eq-ok (err failure) next h = cc

pub fail_if-eq-ok : {E : Type 0} (b : Bool) (e : E) {u : Unit {0}} → fail_if b e ≡ ok u → b ≡ false
fail_if-eq-ok true e h = cc
fail_if-eq-ok false e h = refl

pub ok_or-eq-ok : {E A : Type 0} (o : Option A) (e : E) {a : A} → ok_or o e ≡ ok a → o ≡ some a
ok_or-eq-ok none e h = cc
ok_or-eq-ok (some a) e h = cc

pub map_err-eq-ok :
    {E F A : Type 0} (f : E → F) (r : Result E A) {a : A} → map_err f r ≡ ok a → r ≡ ok a
map_err-eq-ok f (ok a) h = cc
map_err-eq-ok f (err e) h = cc

pub map_ok-eq-ok :
    {E A B : Type 0} (f : A → B) (r : Result E A) {b : B}
    → map_ok f r ≡ ok b
    → (a : A) × (r ≡ ok a) × (f a ≡ b)
map_ok-eq-ok f (ok a) h = (a, refl, cc h)
map_ok-eq-ok f (err e) h = cc

pub ok_injective : {E A : Type 0} {a b : A} → ◌≡◌ {A = Result E A} (ok a) (ok b) → a ≡ b
ok_injective h = cc

pub Result-cases :
    {E A : Type 0} (r : Result E A) → ((a : A) × (r ≡ ok a)) ⊎ ((e : E) × (r ≡ err e))
Result-cases (ok a) = inl (a, refl)
Result-cases (err e) = inr (e, refl)

-- A guarded block returns exactly if the guard lets it through and the rest returns.
pub fail_if->> :
    {E B : Type 0} (b : Bool) (e : E) (m : Result E B) {v : B}
    → ((fail_if b e >> m) ≡ ok v) ↔ ((b ≡ false) × (m ≡ ok v))
fail_if->> true e m = (λ h. cc, λ h. cc (h.0))
fail_if->> false e m = (λ h. (refl, h), λ h. h.1)

pub step->> :
    {E B : Type 0} (c : Result E (Unit {0})) (m : Result E B) {v : B}
    → ((c >> m) ≡ ok v) ↔ ((c ≡ ok tt) × (m ≡ ok v))
step->> (ok tt) m = (λ h. (refl, h), λ h. h.1)
step->> (err e) m = (λ h. cc, λ h. cc (h.0))

pub ok_or->>= :
    {E A B : Type 0} (o : Option A) (e : E) (f : A → Result E B) {v : B}
    → ((ok_or o e >>= f) ≡ ok v) ↔ ((a : A) × (o ≡ some a) × (f a ≡ ok v))
ok_or->>= none e f = (λ h. cc, λ h. cc (h.1))
ok_or->>= (some a) e f = (λ h. (a, refl, h), λ (b, p, h). ap f (some-injective a b p) ∙ h)

pub fail_if_iff : {E : Type 0} (b : Bool) (e : E) → (fail_if b e ≡ ok tt) ↔ (b ≡ false)
fail_if_iff true e = (λ h. cc, λ h. cc)
fail_if_iff false e = (λ h. refl, λ h. refl)

-- The bind again, as a call that does not unfold by itself.
unfoldable pub and_then : {E A B : Type 0} → Result E A → (A → Result E B) → Result E B
and_then m f = m >>= f

pub after_ok :
    {E A B Q : Type 0} (m : Result E A) (f : A → Result E B) {b : B}
    → and_then m f ≡ ok b
    → ((a : A) → m ≡ ok a → f a ≡ ok b → Q)
    → Q
unfolding and_then
after_ok m f h k = let (a, e, rest) = >>=-eq-ok m f h in k a e rest

-- Checks one after the other, up to the first that fails.
unfoldable pub in_order : {E : Type 0} → List (Result E (Unit {0})) → Result E (Unit {0})
in_order [] = ok tt
in_order (c ∷ cs) = let rest = in_order cs in c >> rest

pub in_order-All :
    {E : Type 0} (cs : List (Result E (Unit {0}))) → in_order cs ≡ ok tt → All (λ c. c ≡ ok tt) cs
unfolding in_order
in_order-All [] h = tt
in_order-All (c ∷ cs) h =
    let (first, rest) = (step->> c (in_order cs)).0 h in (first, in_order-All cs rest)

-- Two tests in a chain of `if`, and what follows them.
pub two_guards :
    {E A : Type 0} (b c : Bool) (e f : E) (r : Result E A) {a : A}
    → (if b then err e else if c then err f else r) ≡ ok a
    → (b ≡ false) × (c ≡ false) × (r ≡ ok a)
two_guards true c e f r h = cc
two_guards false true e f r h = cc
two_guards false false e f r h = (refl, refl, h)

-- `if let Ok(v) = r { return Ok(v) }`, and what follows it
abbrev pub or_else : {E A : Type 0} → Result E A → Result E A → Result E A
or_else (ok a) next = ok a
or_else (err e) next = next
