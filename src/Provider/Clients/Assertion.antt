-- ===== src/Provider/Clients/Assertion.antt =====
-- src/provider.rs: how long the use of a client assertion is remembered.
use grindvakt.Prelude.{ℕ, ◌+◌, ◌*◌, ◌≤◌, ◌<◌, max, ◌≡◌, some, arith}
use grindvakt.Prelude.Words.{u64_mod, saturating_add}
use grindvakt.Jwt.{NumericDate, Claims}
use grindvakt.Provider.Clients.{exp_deadline, age_deadline, earliest, assertion_ttl}

abbrev pub nanos_per_sec : ℕ
nanos_per_sec = 1000000000

-- The instant in nanoseconds.
abbrev pub nanos : NumericDate → ℕ
nanos d = d.as_secs * nanos_per_sec + d.subsec_nanos

-- At the second `t` the library still accepts an assertion with these times.
pub record IsAcceptedAt (exp iat : NumericDate) (max_age leeway t : ℕ) : Type 0 where
  pub unexpired : t * nanos_per_sec < nanos exp + leeway * nanos_per_sec
  pub fresh : t * nanos_per_sec ≤ nanos iat + (max_age + leeway) * nanos_per_sec

exp_deadline-after :
    (d : NumericDate) (leeway t : ℕ)
    → d.subsec_nanos < nanos_per_sec
    → t + 1 < u64_mod
    → t * nanos_per_sec < nanos d + leeway * nanos_per_sec
    → t < exp_deadline d leeway
unfolding exp_deadline saturating_add
exp_deadline-after d leeway t f u h = ground arith

age_deadline-after :
    (d : NumericDate) (max_age leeway t : ℕ)
    → d.subsec_nanos < nanos_per_sec
    → t + 1 < u64_mod
    → t * nanos_per_sec ≤ nanos d + (max_age + leeway) * nanos_per_sec
    → t < age_deadline d max_age leeway
unfolding age_deadline saturating_add
age_deadline-after d max_age leeway t f u h = ground arith

age_deadline-le :
    (d : NumericDate) (max_age leeway : ℕ)
    → age_deadline d max_age leeway ≤ d.as_secs + max_age + leeway + 1
unfolding age_deadline saturating_add
age_deadline-le d max_age leeway = omega arith

-- At every second, at or after now and at least two below 2^64, at which an assertion with both
-- times would still be accepted, its use is still remembered; and it is remembered no longer
-- than one second past the age limit and the leeway, or for one second.
pub assertion_ttl-covers :
    (claims : Claims) (exp iat : NumericDate) (max_age leeway now t : ℕ)
    → claims.exp ≡ some exp
    → claims.iat ≡ some iat
    → exp.subsec_nanos < nanos_per_sec
    → iat.subsec_nanos < nanos_per_sec
    → t + 1 < u64_mod
    → now ≤ t
    → IsAcceptedAt exp iat max_age leeway t
    → (t < now + assertion_ttl claims max_age leeway now)
      × (now + assertion_ttl claims max_age leeway now
          ≤ max (iat.as_secs + max_age + leeway + 1) (now + 1))
unfolding assertion_ttl earliest
assertion_ttl-covers claims exp iat max_age leeway now t e i fe fi u le a =
    rw (e, i)
      (
        omega (
          arith,
          exp_deadline-after exp leeway t fe u a.unexpired,
          age_deadline-after iat max_age leeway t fi u a.fresh,
        ),
        omega (arith, age_deadline-le iat max_age leeway),
      )
