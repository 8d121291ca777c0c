-- ===== src/Clock/Frequency.antt =====
-- The period for each sample rate, and what a failed request of the PWM leaves.
use pcm3060_kernelmodule.Prelude.{
  ℕ, ◌+◌, ◌*◌, ◌/◌, ◌≤◌, ◌<◌, ◌≡◌, ◌⊎◌, inl, inr, refl, dec_le, true, false, some, arith, ◌==◌,
}
use pcm3060_kernelmodule.Config.{is_valid_fs, clock_sck_f_hz, hz_to_ns}
use pcm3060_kernelmodule.Kernel.Run.{ok, fault}
use pcm3060_kernelmodule.Kernel.Platform.{neg32, eio, null, err_ptr, object, PwmState, PwmAnswers}
use pcm3060_kernelmodule.Clock.{
  ClockGenerator, pwm_start, pwm_request, clock_generator_init, clock_generator_cleanup,
}

-- The answers to a request that succeeds: the duty cycle is set and leaves the period and the flag,
-- and the state is accepted.
pub record IsGranted (pw : PwmAnswers) (period p : ℕ) : Type 0 where
  pub duty_ok :
      (pw.pwm_set_relative_duty_cycle
        (record { period = period; duty_cycle = 0; enabled = true })
        50
        100).0
      ≡ 0
  pub period_kept :
      (pw.pwm_set_relative_duty_cycle
        (record { period = period; duty_cycle = 0; enabled = true })
        50
        100).1.period
      ≡ period
  pub granted : pw.devm_pwm_get ≡ object p
  pub accepted : (st : PwmState) → pw.pwm_apply_state st ≡ 0

start_object :
    (pw : PwmAnswers) (c : ClockGenerator) (st : PwmState) (q : ℕ)
    → c.dev_pwm_sck ≡ object q
    → pw.pwm_apply_state st ≡ 0
    → pwm_start pw st c ≡ ok (0, record c { running = true; applied = some st })
unfolding pwm_start
start_object pw c st q e accepted = rw (e, accepted) refl

-- With no PWM requested yet, or one held, the request leaves one held.
requested :
    (pw : PwmAnswers) (c : ClockGenerator) (p q : ℕ)
    → (c.dev_pwm_sck ≡ null) ⊎ (c.dev_pwm_sck ≡ object q)
    → pw.devm_pwm_get ≡ object p
    → (r : ℕ) × (c' : ClockGenerator) × (pwm_request pw c ≡ (0, c')) × (c'.dev_pwm_sck ≡ object r)
unfolding pwm_request
requested pw c p q (inl new) got =
    (p, record c { dev_pwm_sck = object p }, rw (new, got) refl, refl)
requested pw c p q (inr held) got = (q, c, rw held refl, held)

quotient_bounds :
    (m : ℕ) → 0 < m → (1000000000 / m * m ≤ 1000000000) × (1000000000 < (1000000000 / m + 1) * m)
quotient_bounds m h = grind arith

mul_mono : (a b c d : ℕ) → a ≤ b → c ≤ d → a * c ≤ b * d
mul_mono a b c d h k = grind arith

quotient_range :
    (q m : ℕ)
    → 4096000 ≤ m
    → m ≤ 49152000
    → q * m ≤ 1000000000
    → 1000000000 < (q + 1) * m
    → (20 ≤ q) × (q ≤ 244)
quotient_range q m low high under over = (
  elim (dec_le 20 q) [
    | yes h ↦ h
    | no h ↦ absurd (omega (arith, mul_mono (q + 1) 20 m 49152000 (omega arith) high))
  ],
  elim (dec_le q 244) [
    | yes h ↦ h
    | no h ↦ absurd (omega (arith, mul_mono 245 q 4096000 m (omega arith) low))
  ],
)

period_bounds :
    (fs : ℕ)
    → is_valid_fs fs ≡ true
    → let period = 1000000000 / (fs * 256) in
      (clock_sck_f_hz fs ≡ fs * 256)
      × (hz_to_ns (fs * 256) ≡ ok period)
      × (period * (fs * 256) ≤ 1000000000)
      × (1000000000 < (period + 1) * (fs * 256))
      × (20 ≤ period)
      × (period ≤ 244)
period_bounds fs valid =
    let low : 4096000 ≤ fs * 256 = ground arith in
    let high : fs * 256 ≤ 49152000 = ground arith in
    let (under, over) = quotient_bounds (fs * 256) (omega arith) in
    let range = quotient_range (1000000000 / (fs * 256)) (fs * 256) low high under over in
    (ground arith, ground arith, under, over, range.0, range.1)

-- For every valid sample rate the master clock does not wrap, and `clock_generator_init` on a device,
-- with no PWM requested yet or with one held, starts the PWM with the largest period in ns that is
-- not longer than that of the clock: from 20 to 244 ns.
pub init_sets_period :
    (pw : PwmAnswers) (c : ClockGenerator) (fs p q pdev : ℕ)
    → is_valid_fs fs ≡ true
    → (c.dev_pwm_sck ≡ null) ⊎ (c.dev_pwm_sck ≡ object q)
    → IsGranted pw (1000000000 / (fs * 256)) p
    → (c' : ClockGenerator) × (st : PwmState) × (clock_generator_init pw
          (some pdev)
          (clock_sck_f_hz fs)
          c
        ≡ ok (0, c'))
      × (c'.running ≡ true)
      × (c'.applied ≡ some st)
      × (st.period * (fs * 256) ≤ 1000000000)
      × (1000000000 < (st.period + 1) * (fs * 256))
      × (20 ≤ st.period)
      × (st.period ≤ 244)
unfolding clock_generator_init
init_sets_period pw c fs p q pdev valid held g =
    let period = 1000000000 / (fs * 256) in
    let (no_wrap, divided, low, high, least, most) = period_bounds fs valid in
    let st =
      (pw.pwm_set_relative_duty_cycle (record { period = period; duty_cycle = 0; enabled = true })
        50 100).1 in
    let (r, c', got, dev) = requested pw c p q held g.granted in
    (
      record c' { running = true; applied = some st },
      st,
      rw (no_wrap, divided, g.duty_ok, got, start_object pw c' st r dev (g.accepted st)) refl,
      refl,
      refl,
      rw g.period_kept low,
      rw g.period_kept high,
      rw g.period_kept least,
      rw g.period_kept most,
    )

-- The same call leaves the PWM held.
pub clock_starts :
    (pw : PwmAnswers) (c : ClockGenerator) (fs p q pdev : ℕ)
    → is_valid_fs fs ≡ true
    → (c.dev_pwm_sck ≡ null) ⊎ (c.dev_pwm_sck ≡ object q)
    → IsGranted pw (1000000000 / (fs * 256)) p
    → (r : ℕ) × (c' : ClockGenerator) × (clock_generator_init pw (some pdev) (clock_sck_f_hz fs) c
        ≡ ok (0, c'))
      × (c'.dev_pwm_sck ≡ object r)
unfolding clock_generator_init
clock_starts pw c fs p q pdev valid held g =
    let bounds = period_bounds fs valid in
    let st =
      (pw.pwm_set_relative_duty_cycle
        (record { period = 1000000000 / (fs * 256); duty_cycle = 0; enabled = true }) 50 100).1 in
    let (r, c', got, dev) = requested pw c p q held g.granted in
    (
      r,
      record c' { running = true; applied = some st },
      rw (bounds.0, bounds.1, g.duty_ok, got, start_object pw c' st r dev (g.accepted st)) refl,
      dev,
    )

-- A request of the PWM that fails leaves its ERR_PTR behind: the next `clock_generator_init` whose
-- duty cycle is set, and the next cleanup, pass that to the PWM functions as a device, a fault.
pub failed_request_stays :
    (pw pw' : PwmAnswers) (c : ClockGenerator) (f f' code pdev : ℕ)
    → c.dev_pwm_sck ≡ null
    → 0 < f
    → 0 < f'
    → (pw.pwm_set_relative_duty_cycle
        (record { period = 1000000000 / f; duty_cycle = 0; enabled = true })
        50
        100).0
      ≡ 0
    → (pw'.pwm_set_relative_duty_cycle
        (record { period = 1000000000 / f'; duty_cycle = 0; enabled = true })
        50
        100).0
      ≡ 0
    → pw.devm_pwm_get ≡ err_ptr code
    → (c' : ClockGenerator) × (clock_generator_init pw (some pdev) f c ≡ ok (neg32 eio, c'))
      × (clock_generator_init pw' (some pdev) f' c' ≡ fault)
      × (clock_generator_cleanup c' ≡ fault)
unfolding clock_generator_init pwm_start pwm_request clock_generator_cleanup neg32
failed_request_stays pw pw' c f f' code pdev new pos pos' duty duty' failed = (
  record c { dev_pwm_sck = err_ptr code },
  rw (nonzero f pos, duty, new, failed) refl,
  rw (nonzero f' pos', duty') refl,
  refl,
)
  where
    nonzero : (n : ℕ) → 0 < n → (n == 0) ≡ false
    nonzero n h = ground arith
