-- ===== src/Transceiver/Oldest.antt =====
-- Which bytes one call of _tx_rx_on_channel sends.
use pcm3060_kernelmodule.Prelude.{
  ℕ, ◌+◌, ◌≤◌, ◌<◌, min, ◌≡◌, refl, sym, ap, ◌∙◌, some, ◌++◌, arith, length, length-append,
  length-take, length-drop, take, drop, ℕ_discrete,
}
use pcm3060_kernelmodule.Prelude.{◌≢◌}
use pcm3060_kernelmodule.Kernel.Run.{ok}
use pcm3060_kernelmodule.Kernel.SpiBus.{SpiController}
use pcm3060_kernelmodule.Kernel.User.{UserCopy}
use pcm3060_kernelmodule.Ring.Contents.{length-contents}
use pcm3060_kernelmodule.DuplexRing.{DuplexRings, right_end, duplex_ring_end_n_bytes_readable}
use pcm3060_kernelmodule.DuplexRing.Transfer.{IsValidPair, right, incoming, read_takes_incoming}
use pcm3060_kernelmodule.Transceiver.{Transceiver, load_tx, tx_rx_on_channel}
use pcm3060_kernelmodule.Transceiver.Channel.{CanSend, Called, load_step, then_queued}

load_none :
    (uc : UserCopy) (d : DuplexRings) (t : Transceiver)
    → duplex_ring_end_n_bytes_readable d (some right_end) ≡ 0
    → load_tx uc (some right_end) d t ≡ ok (0, d, t)
unfolding load_tx
load_none uc d t e = rw e refl

readable_right :
    {d : DuplexRings}
    → IsValidPair d
    → duplex_ring_end_n_bytes_readable d (some right_end) ≡ length (incoming d right)
unfolding duplex_ring_end_n_bytes_readable
readable_right v = sym (length-contents v.valid_a)

pub channel_sends_oldest :
    (sp : SpiController) (uc : UserCopy) {d : DuplexRings} {t : Transceiver} (b : sp.Bus) (p : ℕ)
    → IsValidPair d
    → CanSend t p
    → d.buffer_a.read_idx + min (length (incoming d right)) 3 ≤ d.buffer_a.size
    → let n = min (length (incoming d right)) 3 in
      (d' : DuplexRings) × (t' : Transceiver) × (tx_rx_on_channel sp uc (some right_end) d t b
        ≡ ok (0, d', t', (sp.spi_async p b).1))
      × Called d d' t t'
      × (t'.mem_tx ≡ take n (incoming d right) ++ drop n t.mem_tx)
      × (incoming d' right ≡ drop n (incoming d right))
channel_sends_oldest sp uc {d} {t} b p v can one = elim (ℕ_discrete (length (incoming d right)) 0) [
  | yes nothing ↦ nothing_there nothing
  | no something ↦ something_there (omega arith)
]
  where
    count : duplex_ring_end_n_bytes_readable d (some right_end) ≡ length (incoming d right)
    count = readable_right v

    nothing_there :
        length (incoming d right) ≡ 0
        → let n = min (length (incoming d right)) 3 in
          (d' : DuplexRings) × (t' : Transceiver) × (tx_rx_on_channel sp uc (some right_end) d t b
            ≡ ok (0, d', t', (sp.spi_async p b).1))
          × Called d d' t t'
          × (t'.mem_tx ≡ take n (incoming d right) ++ drop n t.mem_tx)
          × (incoming d' right ≡ drop n (incoming d right))
    nothing_there nothing =
        let none_taken : min (length (incoming d right)) 3 ≡ 0 = omega arith in
        (
          d,
          t,
          then_queued sp uc d t b 0 p (load_none uc d t (count ∙ nothing)) v can.device,
          record { valid = v; outgoing = refl; memory = refl; rest = refl },
          sym (ap (λ k. take k (incoming d right) ++ drop k t.mem_tx) none_taken),
          sym (ap (λ k. drop k (incoming d right)) none_taken),
        )

    something_there :
        0 < length (incoming d right)
        → let n = min (length (incoming d right)) 3 in
          (d' : DuplexRings) × (t' : Transceiver) × (tx_rx_on_channel sp uc (some right_end) d t b
            ≡ ok (0, d', t', (sp.spi_async p b).1))
          × Called d d' t t'
          × (t'.mem_tx ≡ take n (incoming d right) ++ drop n t.mem_tx)
          × (incoming d' right ≡ drop n (incoming d right))
    something_there there =
        let n = min (length (incoming d right)) 3 in
        let (d', e, valid, gone, kept) =
          read_takes_incoming uc right t.mem_tx n v (omega (arith, count)) (omega arith)
            (omega (arith, can)) in
        (
          d',
          record t { mem_tx = take n (incoming d right) ++ drop n t.mem_tx },
          then_queued sp uc d t b n p
              (load_step uc d t n (omega (arith, count)) (omega (arith, count)) e) valid can.device,
          record {
            valid = valid;
            outgoing = kept;
            memory = omega (
              arith,
              can,
              length-append (take n (incoming d right)) (drop n t.mem_tx),
              length-take n (incoming d right),
              length-drop n t.mem_tx,
            );
            rest = refl;
          },
          refl,
          gone,
        )

-- Where the controller refuses the message, `_tx_rx_on_channel` returns 0 all the same: the oldest
-- bytes in one piece, at most three, are gone from the ring, and neither pending nor sent.
pub refused_bytes_lost :
    (sp : SpiController) (uc : UserCopy) {d : DuplexRings} {t : Transceiver} (b : sp.Bus) (p : ℕ)
    → IsValidPair d
    → CanSend t p
    → d.buffer_a.read_idx + min (length (incoming d right)) 3 ≤ d.buffer_a.size
    → (sp.spi_async p b).0 ≢ 0
    → (d' : DuplexRings) × (t' : Transceiver) × (b' : sp.Bus) × (tx_rx_on_channel sp uc
          (some right_end)
          d
          t
          b
        ≡ ok (0, d', t', b'))
      × (incoming d' right ≡ drop (min (length (incoming d right)) 3) (incoming d right))
      × (sp.pending b' ≡ sp.pending b)
      × (sp.sent b' ≡ sp.sent b)
refused_bytes_lost sp uc b p v can one refused =
    let (d', t', called, _, _, gone) = channel_sends_oldest sp uc b p v can one in
    let (none_added, none_sent) = sp.spi_async_refuses p b refused in
    (d', t', (sp.spi_async p b).1, called, gone, none_added, none_sent)
