-- ===== src/Tests/Transceiver.antt =====
-- A transceiver with its device, on two channels with three bytes each to send.
use pcm3060_kernelmodule.Prelude.{
  ℕ, min, ◌≡◌, inr, refl, true, false, none, some, List, [], ◌∷◌, arith, length, slice, drop,
}
use pcm3060_kernelmodule.Kernel.Run.{ok, fault, blocked}
use pcm3060_kernelmodule.Kernel.Completion.{complete}
use pcm3060_kernelmodule.Kernel.Platform.{neg32, err_ptr, object, Platform}
use pcm3060_kernelmodule.Ring.Contents.{contents}
use pcm3060_kernelmodule.DuplexRing.{DuplexRings, right_end}
use pcm3060_kernelmodule.DuplexRing.Transfer.{left, right, incoming}
use pcm3060_kernelmodule.Spi.{spi_get, of_spi_get, of_find_spi_device_by_node}
use pcm3060_kernelmodule.Devicetree.{get_gpio, scan_pins}
use pcm3060_kernelmodule.Transceiver.{Transceiver, Rings, tx_rx_on_channel, tx_run}
use pcm3060_kernelmodule.Transceiver.Channel.{CanSend}
use pcm3060_kernelmodule.Transceiver.Oldest.{refused_bytes_lost}
use pcm3060_kernelmodule.Transceiver.Thread.{IsReady, run_returns}
use pcm3060_kernelmodule.Transceiver.Setup.{Found, NotNamed, tx_init, tx_cleanup, init_then_cleanup}
use pcm3060_kernelmodule.Tests.Instances.{plain_copy, list_controller, shut_down, no_messages}
use pcm3060_kernelmodule.Tests.DuplexRing.{rings, rings-IsValidPair}
use pcm3060_kernelmodule.Tests.Platform.{platform, spi_found}

abbrev pub transceiver : Transceiver
transceiver = record {
  spi_dev = object 9;
  leftchan_buf = some right_end;
  rightchan_buf = some right_end;
  gpio_num = 40;
  settings = none;
  mem_tx = 0 ∷ 0 ∷ 0 ∷ 0 ∷ [];
  mem_rx = 0 ∷ 0 ∷ 0 ∷ 0 ∷ [];
  etx_spi_thread = none;
  thread_alive = false;
  spi_refs = 0;
  tx_completion = 0;
  spi_completion = 0;
  lrck_level = false;
  lrck_pin = false;
}

pub transceiver-CanSend : CanSend transceiver 9
transceiver-CanSend = record { device = refl; memory = refl }

abbrev both : Rings
both = record { left_chan = rings; right_chan = rings }

both-IsReady : IsReady both transceiver 9
both-IsReady = record {
  valid_left = rings-IsValidPair;
  valid_right = rings-IsValidPair;
  left_end = refl;
  right_end = refl;
  sends = transceiver-CanSend;
}

waiting : length (incoming rings right) ≡ 3
unfolding contents slice
waiting = refl

refused_bytes_lost_example :
    (d' : DuplexRings) × (t' : Transceiver) × (b' : ℕ × List (List ℕ)) × (tx_rx_on_channel shut_down
        plain_copy
        (some right_end)
        rings
        transceiver
        no_messages
      ≡ ok (0, d', t', b'))
    × (incoming d' right ≡ drop (min (length (incoming rings right)) 3) (incoming rings right))
    × (b'.0 ≡ 0)
    × (b'.1 ≡ [])
refused_bytes_lost_example =
    refused_bytes_lost shut_down plain_copy no_messages 9 rings-IsValidPair transceiver-CanSend
      (omega (arith, waiting)) (λ e. absurd (omega (arith, e)))

run_returns_example :
    (r' : Rings) × (t' : Transceiver) × (tx_run list_controller plain_copy 5 both transceiver
        no_messages
      ≡ ok (0, r', t', (10, [])))
    × IsReady r' t' 9
    × (t'.tx_completion ≡ complete 0)
    × (incoming r'.left_chan left ≡ incoming both.left_chan left)
    × (incoming r'.right_chan left ≡ incoming both.right_chan left)
run_returns_example = run_returns list_controller plain_copy no_messages 9 5 both-IsReady

pub platform-Found : Found platform 9
unfolding neg32 get_gpio scan_pins spi_get of_spi_get of_find_spi_device_by_node
platform-Found = record { pin = refl; output = refl; device = refl; setup = refl }

init_then_cleanup_example :
    (t' : Transceiver) × (t'' : Transceiver) × (tx_init platform
        (some 5)
        (some right_end)
        (some right_end)
        2822400
        transceiver
      ≡ ok (0, t'))
    × (tx_cleanup true t' ≡ ok (0, t''))
    × (t''.spi_refs ≡ transceiver.spi_refs)
    × (t''.thread_alive ≡ false)
    × (tx_cleanup false t' ≡ blocked)
    × (tx_cleanup true t'' ≡ fault)
init_then_cleanup_example =
    init_then_cleanup 77 5 right_end right_end 2822400 transceiver platform-Found refl refl

abbrev no_thread : Platform
no_thread = record platform { kthread_run = err_ptr 12 }

no_thread-Found : Found no_thread 9
unfolding neg32 get_gpio scan_pins spi_get of_spi_get of_find_spi_device_by_node
no_thread-Found = record { pin = refl; output = refl; device = refl; setup = refl }

abbrev no_spi : Platform
no_spi = record platform { spi = record spi_found { of_parse_phandle_with_args = λ i. (2, 0) } }

no_spi_pin : (get_gpio no_spi.gpio).0 ≡ 0
unfolding neg32 get_gpio scan_pins
no_spi_pin = refl

no_spi-NotNamed : NotNamed no_spi
no_spi-NotNamed = inr (λ e. absurd (omega (arith, e)))
