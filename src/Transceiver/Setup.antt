-- ===== src/Transceiver/Setup.antt =====
-- tx_init and tx_cleanup: the pin, the SPI device and the thread.
use pcm3060_kernelmodule.Prelude.{
  ℕ, zero, suc, ◌+◌, ◌≤◌, ◌⊎◌, inl, inr, ◌^◌, ◌≡◌, ◌≢◌, refl, ◌∙◌, Bool, true, false, ◌&&◌, Option,
  none, some, arith, leb, ◌==◌, if◌then◌else◌, Bool-cases,
}
use pcm3060_kernelmodule.Config.{spi_word_len}
use pcm3060_kernelmodule.Kernel.Run.{Run, ok, fault, blocked, ◌>>=◌}
use pcm3060_kernelmodule.Kernel.Completion.{init_completion, complete, wait_for_completion}
use pcm3060_kernelmodule.Kernel.Platform.{
  neg32, enxio, eprobe_defer, null, err_ptr, object, Platform,
}
use pcm3060_kernelmodule.DuplexRing.{DuplexRingEnd}
use pcm3060_kernelmodule.Devicetree.{get_gpio}
use pcm3060_kernelmodule.Spi.{of_spi_get, spi_get}
use pcm3060_kernelmodule.Transceiver.{Transceiver}

-- `spi_dev_put`, by its contract: a reference that is not held cannot be given back.
abbrev pub spi_dev_put : Transceiver → Run Transceiver
spi_dev_put t = elim t.spi_refs [ zero ↦ fault | suc n ↦ ok (record t { spi_refs = n }) ]

-- The end of `tx_init`: the thread, which gives the device back if it cannot be created.
unfoldable pub start_thread : Platform → Transceiver → Run (ℕ × Transceiver)
start_thread pl t = elim pl.kthread_run [
  | null ↦ ok (0, record t { etx_spi_thread = none })
  | err_ptr code ↦ (do t' ← spi_dev_put (record t { etx_spi_thread = none }); ok (enxio, t'))
  | object th ↦ ok (0, record t { etx_spi_thread = some th; thread_alive = true })
]

-- The SPI device: only NULL counts as missing, any other pointer is written through.
unfoldable pub setup_spi : Platform → ℕ → Transceiver → Run (ℕ × Transceiver)
setup_spi pl f_bck t = elim (spi_get pl.spi true true) [
  | null ↦ ok (enxio, t)
  | err_ptr code ↦ fault
  | object p ↦
      let t' = record t {
        spi_dev = object p;
        spi_refs = suc t.spi_refs;
        settings = some (record { max_speed_hz = f_bck; bits_per_word = spi_word_len; mode = 3 });
      } in
      let rest = start_thread pl t' in if pl.spi.spi_setup p == 0 then rest else ok (enxio, t')
]

-- `tx_init`
unfoldable pub tx_init :
    Platform
    → Option ℕ
    → Option DuplexRingEnd
    → Option DuplexRingEnd
    → ℕ
    → Transceiver
    → Run (ℕ × Transceiver)
tx_init pl (some pdev) (some leftchan_buf) (some rightchan_buf) f_bck t =
    let (code, gpio_num) = get_gpio pl.gpio in
    let t' = record t {
      leftchan_buf = some leftchan_buf;
      rightchan_buf = some rightchan_buf;
      gpio_num = gpio_num;
    } in
    let rest = setup_spi pl f_bck t' in
    if code == 0 && pl.gpio.gpio_direction_output gpio_num == 0 then rest else ok (neg32 1, t')
tx_init pl _ _ _ f_bck t = ok (neg32 1, t)

-- `kthread_stop`, by its contract: it waits for the thread to return. A thread that never ran does
-- not run any more; one that did ends with the `complete` with which `tx_run` ends (`run_returns`). A thread that is gone cannot be stopped.
unfoldable pub kthread_stop : Bool → Transceiver → Run Transceiver
kthread_stop ran t =
    if t.thread_alive
    then ok (record t {
      thread_alive = false;
      tx_completion = if ran then complete t.tx_completion else t.tx_completion;
    })
    else fault

-- The part of `tx_cleanup` for the thread. Its pointer stays.
unfoldable pub stop_thread : Bool → Transceiver → Run Transceiver
stop_thread ran t = elim t.etx_spi_thread [
  | none ↦ ok t
  | some th ↦ (do
    t' ← kthread_stop ran t
    c ← wait_for_completion t'.tx_completion
    ok (record t' { tx_completion = c }))
]

-- `tx_cleanup`; the flag says whether the thread ever ran. The device pointer stays. gpio_free, to which
-- the model gives no state, is left out.
unfoldable pub tx_cleanup : Bool → Transceiver → Run (ℕ × Transceiver)
tx_cleanup ran t = do
  t' ← stop_thread ran (record t { spi_completion = t.spi_completion + 2 })
  elim t'.spi_dev [
    | null ↦ ok (0, t')
    | err_ptr code ↦ fault
    | object p ↦ (do t'' ← spi_dev_put t'; ok (0, t''))
  ]

-- What the kernel answers where `tx_init` gets as far as the thread.
pub record Found (pl : Platform) (p : ℕ) : Type 0 where
  pub pin : (get_gpio pl.gpio).0 ≡ 0
  pub output : pl.gpio.gpio_direction_output (get_gpio pl.gpio).1 ≡ 0
  pub device : spi_get pl.spi true true ≡ object p
  pub setup : pl.spi.spi_setup p ≡ 0

-- The state before the thread is started.
abbrev pub prepared : Platform → ℕ → DuplexRingEnd → DuplexRingEnd → ℕ → Transceiver → Transceiver
prepared pl p l r f_bck t = record t {
  leftchan_buf = some l;
  rightchan_buf = some r;
  gpio_num = (get_gpio pl.gpio).1;
  spi_dev = object p;
  spi_refs = suc t.spi_refs;
  settings = some (record { max_speed_hz = f_bck; bits_per_word = spi_word_len; mode = 3 });
}

Found-starts :
    {pl : Platform} {p : ℕ} (pdev : ℕ) (l r : DuplexRingEnd) (f_bck : ℕ) (t : Transceiver)
    → Found pl p
    → tx_init pl (some pdev) (some l) (some r) f_bck t ≡ start_thread pl (prepared pl p l r f_bck t)
unfolding tx_init setup_spi
Found-starts {pl} {p} pdev l r f_bck t e =
    let pin : ((get_gpio pl.gpio).0 == 0 && pl.gpio.gpio_direction_output (get_gpio pl.gpio).1 == 0)
        ≡ true =
      ground (arith, e) in
    let setup : (pl.spi.spi_setup p == 0) ≡ true = ground (arith, e) in
    rw (pin, setup_spi, e.device, setup) refl

-- With a pin and an SPI device, and a thread that can be created and runs, `tx_init` returns 0, and
-- `tx_cleanup` then stops the thread, returns 0 and gives the one reference to the device back. A
-- thread that never ran leaves `tx_cleanup` waiting for ever, and so does no second clean-up: that
-- stops a thread that is gone.
pub init_then_cleanup :
    {pl : Platform} {p : ℕ} (th pdev : ℕ) (l r : DuplexRingEnd) (f_bck : ℕ) (t : Transceiver)
    → Found pl p
    → pl.kthread_run ≡ object th
    → t.tx_completion ≡ init_completion
    → (t' : Transceiver) × (t'' : Transceiver) × (tx_init pl (some pdev) (some l) (some r) f_bck t
        ≡ ok (0, t'))
      × (tx_cleanup true t' ≡ ok (0, t''))
      × (t''.spi_refs ≡ t.spi_refs)
      × (t''.thread_alive ≡ false)
      × (tx_cleanup false t' ≡ blocked)
      × (tx_cleanup true t'' ≡ fault)
unfolding start_thread tx_cleanup stop_thread kthread_stop wait_for_completion
init_then_cleanup {pl} {p} th pdev l r f_bck t e run idle =
    let t' = record (prepared pl p l r f_bck t) { etx_spi_thread = some th; thread_alive = true } in
    (
      t',
      record t' {
        thread_alive = false;
        spi_refs = t.spi_refs;
        spi_completion = t.spi_completion + 2;
      },
      Found-starts pdev l r f_bck t e ∙ rw run refl,
      rw idle refl,
      refl,
      refl,
      rw idle refl,
      refl,
    )

-- When the thread cannot be created, `tx_init` gives the SPI device back and returns an error, but it
-- keeps the pointer: `tx_cleanup` gives the device back once more. With no other reference, that is a
-- fault.
pub failed_thread_puts_twice :
    {pl : Platform} {p : ℕ} (code pdev : ℕ) (l r : DuplexRingEnd) (f_bck : ℕ) (t : Transceiver)
    → Found pl p
    → pl.kthread_run ≡ err_ptr code
    → t.spi_refs ≡ 0
    → (ran : Bool)
    → (t' : Transceiver) × (tx_init pl (some pdev) (some l) (some r) f_bck t ≡ ok (enxio, t'))
      × (t'.spi_refs ≡ 0)
      × (tx_cleanup ran t' ≡ fault)
unfolding start_thread tx_cleanup stop_thread
failed_thread_puts_twice {pl} {p} code pdev l r f_bck t e run none_held ran = (
  record (prepared pl p l r f_bck t) { etx_spi_thread = none; spi_refs = t.spi_refs },
  Found-starts pdev l r f_bck t e ∙ rw run refl,
  none_held,
  rw none_held refl,
)

-- The device tree leads to no SPI device: the property is not there, or names no node.
abbrev pub NotNamed : Platform → Type 0
NotNamed pl =
    let index = pl.spi.of_property_match_string in
    (2 ^ 31 ≤ index) ⊎ ((pl.spi.of_parse_phandle_with_args index).0 ≢ 0)

spi_get-missing :
    (pl : Platform) → NotNamed pl → (code : ℕ) × (spi_get pl.spi true true ≡ err_ptr code)
unfolding spi_get of_spi_get
spi_get-missing pl missing =
    let index = pl.spi.of_property_match_string in
    let err = (pl.spi.of_parse_phandle_with_args index).0 in
    elim (Bool-cases pl.spi.has_of_node) [
      | inr no_node ↦ (neg32 eprobe_defer, rw no_node refl)
      | inl node ↦ elim (Bool-cases (leb (2 ^ 31) index)) [
        | inl negative ↦ (index, rw (node, negative) refl)
        | inr found ↦
            let test : (err == 0) ≡ false = ground (arith, missing, found) in
            (err, rw (node, found, test) refl)
      ]
    ]

-- With a pin, but where the device tree leads to no SPI device, `tx_init` does not return an error: it
-- writes through the error pointer of `spi_get`.
pub missing_spi_faults :
    (pl : Platform) (pdev : ℕ) (l r : DuplexRingEnd) (f_bck : ℕ) (t : Transceiver)
    → (get_gpio pl.gpio).0 ≡ 0
    → pl.gpio.gpio_direction_output (get_gpio pl.gpio).1 ≡ 0
    → NotNamed pl
    → tx_init pl (some pdev) (some l) (some r) f_bck t ≡ fault
unfolding tx_init setup_spi
missing_spi_faults pl pdev l r f_bck t pin output missing =
    let test : ((get_gpio pl.gpio).0 == 0
          && pl.gpio.gpio_direction_output (get_gpio pl.gpio).1 == 0)
        ≡ true =
      ground (arith, pin, output) in
    let (code, e) = spi_get-missing pl missing in rw (test, setup_spi, e) refl
