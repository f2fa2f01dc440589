-- ===== src/Engine/Timeouts.antt =====
-- The timeouts as text.
use prox.Base.{
  ◌≡◌, some, pos, negsuc, arith, refl, Bool-cases, inl, inr, ℤ, IsInt64, quot_ℤ, eqb_ℤ,
  if◌then◌else◌,
}
use prox.Text.{codes}
use prox.Text.Decimal.{atoi, atoi-itoa}
use prox.Engine.{Config, second}
use prox.Engine.Options.{server_timeout_string, validation_timeout_string}

quot_ℤ-IsInt64 : (z : ℤ) → IsInt64 z → IsInt64 (quot_ℤ z second)
unfolding quot_ℤ
quot_ℤ-IsInt64 (pos n) h = ground arith
quot_ℤ-IsInt64 (negsuc n) h = ground arith

minus_one : atoi (codes "-1") ≡ some (negsuc 0)
unfolding atoi
minus_one = refl

-- The texts of the two timeouts read back as numbers: GetValidationTimeoutStr as the whole seconds of
-- the timeout, and GetServerTimeoutStr as the whole seconds, or -1 if the timeout is zero.
timeout_strings_lem :
    (opt : Config)
    → IsInt64 opt.validation_timeout
    → IsInt64 opt.server_timeout
    → (atoi (validation_timeout_string opt) ≡ some (quot_ℤ opt.validation_timeout second))
      × (atoi (server_timeout_string opt)
          ≡ some (
              if eqb_ℤ opt.server_timeout (pos 0)
              then negsuc 0
              else quot_ℤ opt.server_timeout second))
unfolding validation_timeout_string server_timeout_string
timeout_strings_lem opt v s = (
  atoi-itoa (quot_ℤ opt.validation_timeout second) (quot_ℤ-IsInt64 opt.validation_timeout v),
  elim (Bool-cases (eqb_ℤ opt.server_timeout (pos 0))) [
    | inl zero_timeout ↦ rw zero_timeout minus_one
    | inr timed ↦
        rw timed
          (atoi-itoa (quot_ℤ opt.server_timeout second) (quot_ℤ-IsInt64 opt.server_timeout s))
  ],
)
