-- ===== src/Devicetree/Pins.antt =====
-- get_gpio, against a description of the pin that it settles on.
use pcm3060_kernelmodule.Prelude.{
  ℕ, zero, suc, ◌+◌, ◌-◌, ◌≡◌, inl, inr, refl, ◌∙◌, Bool, ◌||◌, Option, none, some, arith, ◌==◌,
  if◌then◌else◌, Bool-cases,
}
use native.Mathlib.Nat.{add-zero, add-suc, suc-add}
use pcm3060_kernelmodule.Buffer.{below_one}
use pcm3060_kernelmodule.Kernel.Platform.{neg32, eprobe_defer, GpioAnswers}
use pcm3060_kernelmodule.Devicetree.{scan_pins, get_gpio}

-- Does the scan stop at this pin?
abbrev pub settles : GpioAnswers → ℕ → Bool
settles g i = g.of_get_named_gpio i == neg32 eprobe_defer || g.gpio_is_valid (g.of_get_named_gpio i)

-- The least number below `n` that passes a test.
unfoldable pub first : (ℕ → Bool) → ℕ → Option ℕ
first t zero = none
first t (suc n) = elim (first t n) [ none ↦ if t n then some n else none | some i ↦ some i ]

-- The code and the pin number for `n` pins whose scan stops at a pin, or at none.
abbrev pub answer : GpioAnswers → ℕ → Option ℕ → ℕ × ℕ
answer g n none = (0, if n == 0 then 0 else g.of_get_named_gpio (n - 1))
answer g n (some i) =
    let found = g.of_get_named_gpio i in
    (if found == neg32 eprobe_defer then 0 else g.devm_gpio_request found, found)

first-stable : (t : ℕ → Bool) (n k i : ℕ) → first t n ≡ some i → first t (n + k) ≡ some i
unfolding first
first-stable t n zero i e = rw add-zero e
first-stable t n (suc k) i e = rw (add-suc, first) (rw (first-stable t n k i e) refl)

scan-first :
    (g : GpioAnswers) (left from num : ℕ)
    → first (settles g) from ≡ none
    → num ≡ (if from == 0 then 0 else g.of_get_named_gpio (from - 1))
    → scan_pins g left from num ≡ answer g (from + left) (first (settles g) (from + left))
unfolding scan_pins
scan-first g zero from num e last = rw (add-zero, e) (rw (← last) refl)
scan-first g (suc left) from num e last = elim (Bool-cases (settles g from)) [
  | inl stop ↦
      let here : first (settles g) (suc from) ≡ some from = unfold first in rw (e, stop) refl in
      let found : first (settles g) (from + suc left) ≡ some from =
        rw (add-suc, ← suc-add) (first-stable (settles g) (suc from) left from here) in
      rw found (ground arith)
  | inr pass ↦
      let next : first (settles g) (from + 1) ≡ none =
        let one : from + 1 ≡ suc from = omega arith in rw one (unfold first in rw (e, pass) refl) in
      let rest = scan-first g left (from + 1) (g.of_get_named_gpio from) next (ground arith) in
      let same : from + suc left ≡ from + 1 + left = omega arith in rw same (ground (arith, rest))
]

-- `get_gpio` settles on the first pin of the name that is deferred or has a valid number. It requests
-- the pin and returns the code of that, unless the pin is deferred: then it returns 0, as it does when
-- all pins are passed over. With no pins it returns -1.
pub get_gpio-first :
    (g : GpioAnswers)
    → get_gpio g ≡ (
        if below_one g.of_gpio_named_count
        then (neg32 1, 0)
        else answer g g.of_gpio_named_count (first (settles g) g.of_gpio_named_count))
unfolding get_gpio
get_gpio-first g =
    let n = g.of_gpio_named_count in
    let start : 0 + n ≡ n = omega arith in
    let all = scan-first g n 0 0 (unfold first in refl) refl in
    elim (Bool-cases (below_one n)) [
      | inl no_pins ↦ rw no_pins refl
      | inr pins ↦ rw pins (all ∙ rw start refl)
    ]
