-- ===== src/Kernel/Platform.antt =====
-- Return codes, pointers that may hold an error, and what the kernel answers during one call.
-- An `int` is its 32-bit pattern. Each operation of the driver takes the answers of its own call, so
-- that two calls may get different ones.
use pcm3060_kernelmodule.Prelude.{ℕ, Bool, true, false, Option}
use pcm3060_kernelmodule.Prelude.Words.{sub32}

-- `-n`
unfoldable pub neg32 : ℕ → ℕ
unfolding sub32
neg32 n = sub32 0 n

abbrev pub enxio : ℕ
enxio = 6

abbrev pub eio : ℕ
eio = 5

abbrev pub einval : ℕ
einval = 22

abbrev pub eprobe_defer : ℕ
eprobe_defer = 517

-- A pointer of the kernel: NULL, an ERR_PTR with its code, or an object.
pub data KernelPtr : Type 0 where
  null : KernelPtr
  err_ptr : ℕ → KernelPtr
  object : ℕ → KernelPtr

-- IS_ERR
abbrev pub is_err : KernelPtr → Bool
is_err (err_ptr c) = true
is_err _ = false

-- `struct pwm_state`; the polarity is always the normal one.
pub record PwmState : Type 0 where
  pub period : ℕ
  pub duty_cycle : ℕ
  pub enabled : Bool

-- linux/pwm.h
pub record PwmAnswers : Type 0 where
  -- the code, and the state with its duty cycle set
  pub pwm_set_relative_duty_cycle : PwmState → ℕ → ℕ → ℕ × PwmState
  pub devm_pwm_get : KernelPtr
  pub pwm_enable : ℕ
  pub pwm_apply_state : PwmState → ℕ

-- linux/of_gpio.h and linux/gpio.h, for the pins of one name
pub record GpioAnswers : Type 0 where
  pub of_gpio_named_count : ℕ
  pub of_get_named_gpio : ℕ → ℕ
  pub gpio_is_valid : ℕ → Bool
  pub devm_gpio_request : ℕ → ℕ
  pub gpio_direction_output : ℕ → ℕ

-- linux/of.h and linux/spi/spi.h, for the one device name
pub record SpiAnswers : Type 0 where
  -- does the device have a device-tree node?
  pub has_of_node : Bool
  pub of_property_match_string : ℕ
  -- the code, and the node found
  pub of_parse_phandle_with_args : ℕ → ℕ × ℕ
  -- the `struct device *` at a node, with its `struct spi_device *`
  pub bus_find_device : ℕ → Option ℕ
  pub spi_setup : ℕ → ℕ

-- linux/of.h and linux/device.h, for the one compatible string
pub record BusAnswers : Type 0 where
  pub of_find_compatible_node : Option ℕ
  pub platform_find_device : ℕ → Option ℕ

pub record Platform : Type 0 where
  pub pwm : PwmAnswers
  pub gpio : GpioAnswers
  pub spi : SpiAnswers
  pub bus : BusAnswers
  pub kthread_run : KernelPtr
