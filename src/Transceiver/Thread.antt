-- ===== src/Transceiver/Thread.antt =====
-- The loop of _tx_run on both channels.
use pcm3060_kernelmodule.Prelude.{ℕ, zero, suc, ◌+◌, ◌≡◌, refl, ◌∙◌, sym, subst, false, some, arith}
use pcm3060_kernelmodule.Prelude.{ap}
use pcm3060_kernelmodule.Kernel.Run.{ok}
use pcm3060_kernelmodule.Kernel.SpiBus.{SpiController, submitted}
use pcm3060_kernelmodule.Kernel.User.{UserCopy}
use pcm3060_kernelmodule.Kernel.Completion.{complete}
use pcm3060_kernelmodule.DuplexRing.{DuplexRings, right_end}
use pcm3060_kernelmodule.DuplexRing.Transfer.{IsValidPair, left, incoming}
use pcm3060_kernelmodule.Transceiver.{Transceiver, Rings, tx_rx_on_channel, tx_round, tx_run}
use pcm3060_kernelmodule.Transceiver.Channel.{
  CanSend, Called-fields, Called-CanSend, channel_returns,
}

-- Both channels have valid rings, whose right ends the transceiver holds.
pub record IsReady (r : Rings) (t : Transceiver) (p : ℕ) : Type 0 where
  pub valid_left : IsValidPair r.left_chan
  pub valid_right : IsValidPair r.right_chan
  pub left_end : t.leftchan_buf ≡ some right_end
  pub right_end : t.rightchan_buf ≡ some right_end
  pub sends : CanSend t p

module _ (sp : SpiController) (uc : UserCopy) where
  open sp use {Bus, spi_async}

  pub round_of :
      (r : Rings) (t : Transceiver) (b : Bus) {d d' : DuplexRings} {t1 t2 : Transceiver}
      {b1 b2 : Bus}
      → tx_rx_on_channel sp uc t.leftchan_buf r.left_chan t b ≡ ok (0, d, t1, b1)
      → tx_rx_on_channel sp uc t1.rightchan_buf r.right_chan t1 b1 ≡ ok (0, d', t2, b2)
      → tx_round sp uc r t b ≡ ok (false, record { left_chan = d; right_chan = d' }, t2, b2)
  unfolding tx_round
  round_of r t b e e' = rw (e, e') refl

  run_of :
      (rounds : ℕ) (r : Rings) (t : Transceiver) (b : Bus) {r1 r2 : Rings} {t1 t2 : Transceiver}
      {b1 b2 : Bus}
      → tx_round sp uc r t b ≡ ok (false, r1, t1, b1)
      → tx_run sp uc rounds r1 t1 b1 ≡ ok (0, r2, t2, b2)
      → tx_run sp uc (suc rounds) r t b ≡ ok (0, r2, t2, b2)
  unfolding tx_run
  run_of rounds r t b e e' = rw (e, e') refl

  round_returns :
      {r : Rings} {t : Transceiver} (b : Bus) (p : ℕ)
      → IsReady r t p
      → (r' : Rings) × (t' : Transceiver) × (tx_round sp uc r t b
          ≡ ok (false, r', t', (spi_async p (spi_async p b).1).1))
        × IsReady r' t' p
        × (incoming r'.left_chan left ≡ incoming r.left_chan left)
        × (incoming r'.right_chan left ≡ incoming r.right_chan left)
        × (t'.tx_completion ≡ t.tx_completion)
  round_returns {r} {t} b p v =
      let (d, t1, done, called) = channel_returns sp uc b p v.valid_left v.sends in
      let one = Called-fields called in
      let sends1 : CanSend t1 p = Called-CanSend called v.sends in
      let b1 = (spi_async p b).1 in
      let (d', t2, done', called') = channel_returns sp uc b1 p v.valid_right sends1 in
      let two = Called-fields called' in
      let end1 : t1.rightchan_buf ≡ some right_end = one.2 ∙ v.right_end in
      (
        record { left_chan = d; right_chan = d' },
        t2,
        round_of r t b
            (subst (λ e. tx_rx_on_channel sp uc e r.left_chan t b ≡ ok (0, d, t1, b1))
              (sym v.left_end) done)
            (subst
              (λ e.
                tx_rx_on_channel sp uc e r.right_chan t1 b1 ≡ ok (0, d', t2, (spi_async p b1).1))
              (sym end1) done'),
        record {
          valid_left = called.valid;
          valid_right = called'.valid;
          left_end = two.1 ∙ one.1 ∙ v.left_end;
          right_end = two.2 ∙ end1;
          sends = Called-CanSend called' sends1;
        },
        called.outgoing,
        called'.outgoing,
        ap (λ t. t.tx_completion) called'.rest ∙ ap (λ t. t.tx_completion) called.rest,
      )

  -- `_tx_run` on valid rings, with a stop after any number of rounds: no access of any round leaves the
  -- rings or `mem_tx`, and the function returns with `tx_completion` completed once since the start. It
  -- never sleeps: each round submits two messages, whether or not there are bytes to send and whether
  -- or not the controller accepts them. The bytes on their way to user space stay as they are, since no
  -- received byte is ever written to a ring.
  pub run_returns :
      {r : Rings} {t : Transceiver} (b : Bus) (p rounds : ℕ)
      → IsReady r t p
      → (r' : Rings) × (t' : Transceiver) × (tx_run sp uc rounds r t b
          ≡ ok (0, r', t', submitted sp p (rounds + rounds) b))
        × IsReady r' t' p
        × (t'.tx_completion ≡ complete t.tx_completion)
        × (incoming r'.left_chan left ≡ incoming r.left_chan left)
        × (incoming r'.right_chan left ≡ incoming r.right_chan left)
  unfolding tx_run
  run_returns {r} {t} b p zero v = (
    r,
    record t { tx_completion = complete t.tx_completion },
    refl,
    record {
      valid_left = v.valid_left;
      valid_right = v.valid_right;
      left_end = v.left_end;
      right_end = v.right_end;
      sends = record { device = v.sends.device; memory = v.sends.memory };
    },
    refl,
    refl,
    refl,
  )
  run_returns {r} {t} b p (suc rounds) v =
      let b1 = (spi_async p (spi_async p b).1).1 in
      let (r1, t1, e, v1, kept_left, kept_right, count) = round_returns b p v in
      let (r2, t2, e', v2, count', kept_left', kept_right') =
        run_returns {r = r1} {t = t1} b1 p rounds v1 in
      let twice : suc (suc (rounds + rounds)) ≡ suc rounds + suc rounds = omega arith in
      (
        r2,
        t2,
        run_of rounds r t b e e' ∙ ap (λ n. ok (0, r2, t2, submitted sp p n b)) twice,
        v2,
        count' ∙ ap (λ c. complete c) count,
        kept_left' ∙ kept_left,
        kept_right' ∙ kept_right,
      )
