-- ===== src/Tests/Platform.antt =====
-- A platform on which everything is found, and the clock, the device tree and the driver on it.
use pcm3060_kernelmodule.Prelude.{
  ℕ, ◌+◌, ◌*◌, ◌/◌, ◌≤◌, ◌<◌, ◌≡◌, inl, refl, true, false, none, some, List, [], ◌∷◌, ◌==◌,
  if◌then◌else◌,
}
use pcm3060_kernelmodule.Kernel.Run.{ok}
use pcm3060_kernelmodule.Kernel.Platform.{
  neg32, null, err_ptr, object, PwmState, PwmAnswers, GpioAnswers, SpiAnswers, Platform,
}
use pcm3060_kernelmodule.Clock.{ClockGenerator, clock_generator_init}
use pcm3060_kernelmodule.Clock.Frequency.{init_sets_period}
use pcm3060_kernelmodule.Config.{clock_sck_f_hz}
use pcm3060_kernelmodule.Buffer.{below_one}
use pcm3060_kernelmodule.Devicetree.{get_gpio}
use pcm3060_kernelmodule.Devicetree.Pins.{settles, first, answer, get_gpio-first}
use pcm3060_kernelmodule.Drivers.{
  Callback, DriverData, register_driver_pcm3060, probe_pcm3060_device, any_fails, until_failure,
  probe_stops_at_failure,
}

abbrev pub pwm_found : PwmAnswers
pwm_found = record {
  pwm_set_relative_duty_cycle = λ st d s. (0, record st { duty_cycle = st.period / 2 });
  devm_pwm_get = object 1;
  pwm_enable = 0;
  pwm_apply_state = λ st. 0;
}

abbrev pub gpio_found : GpioAnswers
gpio_found = record {
  of_gpio_named_count = 1;
  of_get_named_gpio = λ i. 40 + i;
  gpio_is_valid = λ n. true;
  devm_gpio_request = λ n. 0;
  gpio_direction_output = λ n. 0;
}

abbrev pub spi_found : SpiAnswers
spi_found = record {
  has_of_node = true;
  of_property_match_string = 0;
  of_parse_phandle_with_args = λ i. (0, 7);
  bus_find_device = λ n. some 9;
  spi_setup = λ p. 0;
}

abbrev pub platform : Platform
platform = record {
  pwm = pwm_found;
  gpio = gpio_found;
  spi = spi_found;
  bus = record { of_find_compatible_node = some 3; platform_find_device = λ n. some 5 };
  kthread_run = object 77;
}

abbrev pub clock : ClockGenerator
clock = record { dev_pwm_sck = null; running = false; applied = none }

abbrev duty : PwmState
duty = record { period = 88; duty_cycle = 44; enabled = true }

init_sets_period_example :
    (c' : ClockGenerator) × (st : PwmState) × (clock_generator_init pwm_found
        (some 5)
        (clock_sck_f_hz 44100)
        clock
      ≡ ok (0, c'))
    × (c'.running ≡ true)
    × (c'.applied ≡ some st)
    × (st.period * (44100 * 256) ≤ 1000000000)
    × (1000000000 < (st.period + 1) * (44100 * 256))
    × (20 ≤ st.period)
    × (st.period ≤ 244)
init_sets_period_example =
    init_sets_period pwm_found clock 44100 1 0 5 refl (inl refl)
      (record { duty_ok = refl; period_kept = refl; granted = refl; accepted = λ st. refl })

abbrev pwm_missing : PwmAnswers
pwm_missing = record pwm_found { devm_pwm_get = err_ptr 2 }

abbrev returns : ℕ → ℕ
returns n = if n == 8 then 1 else 0

-- The second of the three callbacks fails.
abbrev callbacks : List Callback
callbacks = some 7 ∷ some 8 ∷ none ∷ []

abbrev no_callbacks : DriverData
no_callbacks = record { on_probe = none; n_on_probe = 0; on_remove = none; n_on_remove = 0 }

probe_stops_at_failure_example :
    (d' : DriverData) × (register_driver_pcm3060 true 0 (some callbacks) no_callbacks ≡ ok (0, d'))
    × (probe_pcm3060_device returns d'
        ≡ ok (if any_fails returns callbacks then 1 else 0, until_failure returns callbacks))
probe_stops_at_failure_example = probe_stops_at_failure returns 0 callbacks no_callbacks

get_gpio-first_example :
    get_gpio gpio_found
    ≡ (if below_one 1 then (neg32 1, 0) else answer gpio_found 1 (first (settles gpio_found) 1))
get_gpio-first_example = get_gpio-first gpio_found
