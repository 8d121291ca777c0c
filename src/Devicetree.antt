-- ===== src/Devicetree.antt =====
-- src/periphery/devicetree.c and src/utils/devicetree.c: the device and its pins in the device tree.
-- Reference counts of device-tree nodes are left out.
pub mod Pins
use pcm3060_kernelmodule.Prelude.{
  ℕ, zero, suc, ◌+◌, Bool, true, false, Option, none, some, ◌==◌, if◌then◌else◌,
}
use pcm3060_kernelmodule.Buffer.{below_one}
use pcm3060_kernelmodule.Kernel.Platform.{neg32, eprobe_defer, GpioAnswers, BusAnswers}

-- `dt_find_pcm3060_device`, which looks for the node with `device_match_of_node`.
unfoldable pub dt_find_pcm3060_device : BusAnswers → Option ℕ
dt_find_pcm3060_device bus = elim bus.of_find_compatible_node [
  | none ↦ none
  | some dev_node ↦ bus.platform_find_device dev_node
]

-- The loop of `get_gpio` over the pins left, from pin `pin_id` on: the code, and `*pGPIOnum_o`.
unfoldable pub scan_pins : GpioAnswers → ℕ → ℕ → ℕ → ℕ × ℕ
scan_pins g zero pin_id num = (0, num)
scan_pins g (suc left) pin_id num =
    let found = g.of_get_named_gpio pin_id in
    let rest = scan_pins g left (pin_id + 1) found in
    if found == neg32 eprobe_defer
    then (0, found)
    else if g.gpio_is_valid found
    then (g.devm_gpio_request found, found)
    else rest

-- `get_gpio`
unfoldable pub get_gpio : GpioAnswers → ℕ × ℕ
unfolding scan_pins
get_gpio g =
    let n_pins = g.of_gpio_named_count in
    if below_one n_pins then (neg32 1, 0) else scan_pins g n_pins 0 0
