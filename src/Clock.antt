-- ===== src/Clock.antt =====
-- src/periphery/clock_generator.c: the system clock of the codec, from a PWM device.
pub mod Frequency
use pcm3060_kernelmodule.Prelude.{
  ℕ, ◌+◌, Bool, true, false, Option, none, some, ◌||◌, ◌==◌, if◌then◌else◌,
}
use pcm3060_kernelmodule.Config.{hz_to_ns}
use pcm3060_kernelmodule.Kernel.Run.{Run, ok, fault, ◌>>=◌}
use pcm3060_kernelmodule.Kernel.Platform.{
  neg32, enxio, eio, einval, KernelPtr, null, err_ptr, object, is_err, PwmState, PwmAnswers,
}

-- `dev_pwm_sck`, and what the PWM device was told: whether it runs, and the last state applied.
pub record ClockGenerator : Type 0 where
  pub dev_pwm_sck : KernelPtr
  pub running : Bool
  pub applied : Option PwmState

-- `pwm_enable`, then `pwm_apply_state`. Both check for NULL, and dereference anything else. The device
-- runs where one of them succeeds, since the state has `.enabled = 1`, or where it ran before.
unfoldable pub pwm_start : PwmAnswers → PwmState → ClockGenerator → Run (ℕ × ClockGenerator)
pwm_start pw new_sck1_state c = elim c.dev_pwm_sck [
  | null ↦ ok (neg32 einval, c)
  | err_ptr code ↦ fault
  | object p ↦
      let ret = pw.pwm_apply_state new_sck1_state in
      ok (
        ret,
        record c {
          running = ret == 0 || pw.pwm_enable == 0 || c.running;
          applied = if ret == 0 then some new_sck1_state else c.applied;
        },
      )
]

-- The request of the PWM device, if there is none yet.
unfoldable pub pwm_request : PwmAnswers → ClockGenerator → ℕ × ClockGenerator
pwm_request pw c = elim c.dev_pwm_sck [
  | null ↦
      let dev = pw.devm_pwm_get in
      (if is_err dev then neg32 eio else 0, record c { dev_pwm_sck = dev })
  | err_ptr code ↦ (0, c)
  | object p ↦ (0, c)
]

-- `clock_generator_init`
unfoldable pub clock_generator_init :
    PwmAnswers → Option ℕ → ℕ → ClockGenerator → Run (ℕ × ClockGenerator)
unfolding pwm_start pwm_request
clock_generator_init pw none frequency c = do period ← hz_to_ns frequency; ok (neg32 enxio, c)
clock_generator_init pw (some pdev) frequency c = do
  period ← hz_to_ns frequency
  let (duty, new_sck1_state) =
      pw.pwm_set_relative_duty_cycle (record { period = period; duty_cycle = 0; enabled = true }) 50
        100
  let (got, requested) = pwm_request pw c
  if duty == 0
      then (if got == 0 then pwm_start pw new_sck1_state requested else ok (got, requested))
      else ok (duty, c)

-- `clock_generator_cleanup`: pwm_disable checks for NULL, and dereferences anything else.
unfoldable pub clock_generator_cleanup : ClockGenerator → Run (ℕ × ClockGenerator)
clock_generator_cleanup c = elim c.dev_pwm_sck [
  | null ↦ ok (0, c)
  | err_ptr code ↦ fault
  | object p ↦ ok (0, record c { running = false })
]
