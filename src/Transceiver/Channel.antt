-- ===== src/Transceiver/Channel.antt =====
-- One call of _tx_rx_on_channel on the right end of a channel's rings.
use pcm3060_kernelmodule.Prelude.{
  ℕ, ◌+◌, ◌%◌, ◌≤◌, ◌<◌, min, ◌≡◌, refl, sym, ap, ◌∙◌, true, false, ◌&&◌, some, List, arith, length,
  slice, splice, length-splice, length-slice, ltb, ◌==◌, ℕ_discrete,
}
use pcm3060_kernelmodule.Config.{n_byte_size_per_tx}
use pcm3060_kernelmodule.Kernel.Run.{ok}
use pcm3060_kernelmodule.Kernel.SpiBus.{SpiController}
use pcm3060_kernelmodule.Kernel.User.{UserCopy}
use pcm3060_kernelmodule.Kernel.Platform.{object}
use pcm3060_kernelmodule.Ring.{RingBuffer, read_split, ring_buffer_n_bytes_readable}
use pcm3060_kernelmodule.Ring.Bounds.{IsValid}
use pcm3060_kernelmodule.Ring.Reads.{
  read_ok, read_split_within, readable-lt, readable-add-writable, fetched,
}
use pcm3060_kernelmodule.Ring.Queue.{advanced-IsValid}
use pcm3060_kernelmodule.DuplexRing.{
  DuplexRings, right_end, duplex_ring_end_read, duplex_ring_end_n_bytes_readable,
  duplex_ring_end_n_bytes_writable,
}
use pcm3060_kernelmodule.DuplexRing.Transfer.{IsValidPair, left, incoming}
use pcm3060_kernelmodule.Transceiver.{Transceiver, load_tx, tx_rx_on_channel}

-- The transceiver can send: it has its SPI device and a whole `mem_tx`.
pub record CanSend (t : Transceiver) (p : ℕ) : Type 0 where
  pub device : t.spi_dev ≡ object p
  pub memory : length t.mem_tx ≡ 4

length-fetched :
    {r : RingBuffer} (dst : List ℕ) (n : ℕ)
    → IsValid r
    → n ≤ ring_buffer_n_bytes_readable r
    → n ≤ length dst
    → length (fetched r dst (read_split r n).0 (read_split r n).1) ≡ length dst
length-fetched {r} dst n v h k =
    let (a, b) = read_split r n in
    let bounds = read_split_within n v h in
    let first = length-slice r.read_idx a r.buf in
    let second = length-slice 0 b r.buf in
    let once = length-splice dst 0 (slice r.read_idx a r.buf) in
    let twice = length-splice (splice dst 0 (slice r.read_idx a r.buf)) 0 (slice 0 b r.buf) in
    ground (arith, v, bounds, first, second, once, twice)

-- A valid pair has room for at least one byte at each end.
right_writable :
    {d : DuplexRings} → IsValidPair d → 0 < duplex_ring_end_n_bytes_writable d (some right_end)
unfolding duplex_ring_end_n_bytes_writable
right_writable v = omega (arith, readable-lt v.valid_b, readable-add-writable v.valid_b)

-- What any call at a valid pair leaves: a valid pair, the outgoing bytes, and `mem_tx` of its length,
-- with nothing else of the transceiver changed.
pub record Called (d d' : DuplexRings) (t t' : Transceiver) : Type 0 where
  pub valid : IsValidPair d'
  pub outgoing : incoming d' left ≡ incoming d left
  pub memory : length t'.mem_tx ≡ length t.mem_tx
  pub rest : t' ≡ record t { mem_tx = t'.mem_tx }

pub Called-fields :
    {d d' : DuplexRings} {t t' : Transceiver}
    → Called d d' t t'
    → (t'.spi_dev ≡ t.spi_dev)
      × (t'.leftchan_buf ≡ t.leftchan_buf)
      × (t'.rightchan_buf ≡ t.rightchan_buf)
Called-fields c =
    (ap (λ s. s.spi_dev) c.rest, ap (λ s. s.leftchan_buf) c.rest, ap (λ s. s.rightchan_buf) c.rest)

pub Called-CanSend :
    {d d' : DuplexRings} {t t' : Transceiver} {p : ℕ}
    → Called d d' t t'
    → CanSend t p
    → CanSend t' p
Called-CanSend c can = record {
  device = (Called-fields c).0 ∙ can.device;
  memory = c.memory ∙ can.memory;
}

-- The read of `n` bytes, of those that are there, in one piece or not.
read_right :
    (uc : UserCopy) {d : DuplexRings} (dst : List ℕ) (n : ℕ)
    → IsValidPair d
    → n ≤ duplex_ring_end_n_bytes_readable d (some right_end)
    → n ≤ length dst
    → (out : List ℕ) × (d' : DuplexRings) × (duplex_ring_end_read uc d (some right_end) (some dst) n
        ≡ ok (0, some out, d'))
      × IsValidPair d'
      × (incoming d' left ≡ incoming d left)
      × (length out ≡ length dst)
unfolding duplex_ring_end_read duplex_ring_end_n_bytes_readable
read_right uc {d} dst n v h k =
    let r = d.buffer_a in
    let (a, b) = read_split r n in
    (
      fetched r dst a b,
      record d { buffer_a = record r { read_idx = (r.read_idx + n) % r.size } },
      rw (read_ok uc dst n v.valid_a h k) refl,
      record { valid_a = advanced-IsValid n v.valid_a; valid_b = v.valid_b },
      refl,
      length-fetched dst n v.valid_a h k,
    )

pub load_step :
    (uc : UserCopy) (d : DuplexRings) (t : Transceiver) {d' : DuplexRings} {out : List ℕ} (n : ℕ)
    → 0 < duplex_ring_end_n_bytes_readable d (some right_end)
    → min (duplex_ring_end_n_bytes_readable d (some right_end)) n_byte_size_per_tx ≡ n
    → duplex_ring_end_read uc d (some right_end) (some t.mem_tx) n ≡ ok (0, some out, d')
    → load_tx uc (some right_end) d t ≡ ok (n, d', record t { mem_tx = out })
unfolding load_tx
load_step uc d t n pos few e =
    let test : ltb 0 (duplex_ring_end_n_bytes_readable d (some right_end)) ≡ true = ground arith in
    rw (test, few, e) refl

loaded :
    (uc : UserCopy) {d : DuplexRings} (t : Transceiver)
    → IsValidPair d
    → length t.mem_tx ≡ 4
    → let n = min (duplex_ring_end_n_bytes_readable d (some right_end)) n_byte_size_per_tx in
      (out : List ℕ) × (d' : DuplexRings) × (load_tx uc (some right_end) d t
        ≡ ok (n, d', record t { mem_tx = out }))
      × IsValidPair d'
      × (incoming d' left ≡ incoming d left)
      × (length out ≡ 4)
unfolding load_tx
loaded uc {d} t v len =
    let readable = duplex_ring_end_n_bytes_readable d (some right_end) in
    elim (ℕ_discrete readable 0) [
      | yes none_there ↦ (t.mem_tx, d, rw none_there refl, v, refl, len)
      | no some_there ↦
          let n = min readable n_byte_size_per_tx in
          let (out, d', e, valid, out_left, out_len) =
            read_right uc t.mem_tx n v (omega arith) (omega (arith, len)) in
          (out, d', load_step uc d t n (omega arith) refl e, valid, out_left, out_len ∙ len)
    ]

-- A load, and then the transfer: the write end has room, so that the call never gives up.
pub then_queued :
    (sp : SpiController) (uc : UserCopy) (d : DuplexRings) (t : Transceiver) (b : sp.Bus)
    {d' : DuplexRings} {t' : Transceiver} (n p : ℕ)
    → load_tx uc (some right_end) d t ≡ ok (n, d', t')
    → IsValidPair d'
    → t'.spi_dev ≡ object p
    → tx_rx_on_channel sp uc (some right_end) d t b ≡ ok (0, d', t', (sp.spi_async p b).1)
unfolding tx_rx_on_channel
then_queued sp uc d t b {d'} n p e valid dev =
    let room = right_writable valid in
    let test : (n == 0
          && min (duplex_ring_end_n_bytes_writable d' (some right_end)) n_byte_size_per_tx == 0)
        ≡ false =
      ground arith in
    rw (e, test, dev) refl

-- `_tx_rx_on_channel` on the right end of valid rings always submits one message and returns 0,
-- however many bytes there are and wherever they lie, and whether or not the controller accepts it: no
-- access leaves the rings or `mem_tx`. The bytes on their way to the other end stay; so does all of the
-- transceiver but `mem_tx`.
pub channel_returns :
    (sp : SpiController) (uc : UserCopy) {d : DuplexRings} {t : Transceiver} (b : sp.Bus) (p : ℕ)
    → IsValidPair d
    → CanSend t p
    → (d' : DuplexRings) × (t' : Transceiver) × (tx_rx_on_channel sp uc (some right_end) d t b
        ≡ ok (0, d', t', (sp.spi_async p b).1))
      × Called d d' t t'
channel_returns sp uc {d} {t} b p v can =
    let (out, d', e, valid, out_left, len) = loaded uc t v can.memory in
    (
      d',
      record t { mem_tx = out },
      then_queued sp uc d t b _ p e valid can.device,
      record { valid = valid; outgoing = out_left; memory = len ∙ sym can.memory; rest = refl },
    )
