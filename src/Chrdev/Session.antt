-- ===== src/Chrdev/Session.antt =====
-- A channel's file and the transceiver in turn, from the user's writes to `mem_tx`.
use pcm3060_kernelmodule.Prelude.{
  ℕ, ◌+◌, ◌-◌, ◌≤◌, ◌<◌, ◌^◌, min, ◌≡◌, refl, sym, ap, ◌∙◌, subst, Option, some, List, [], ◌++◌,
  arith, length, take, drop, append-nil, append_assoc, take-append-drop, take-append_all,
  length-take, ◌==◌, Bool-cases, inl, inr,
}
use pcm3060_kernelmodule.Kernel.Run.{ok}
use pcm3060_kernelmodule.Kernel.SpiBus.{SpiController}
use pcm3060_kernelmodule.Kernel.User.{UserCopy}
use pcm3060_kernelmodule.Kernel.Alloc.{Allocator}
use pcm3060_kernelmodule.Ring.{ring_buffer_n_bytes_readable}
use pcm3060_kernelmodule.Ring.Contents.{FitsInOnePiece}
use pcm3060_kernelmodule.DuplexRing.{DuplexRings, right_end}
use pcm3060_kernelmodule.DuplexRing.Transfer.{IsValidPair, left, right, incoming}
use pcm3060_kernelmodule.Transceiver.{Transceiver, tx_rx_on_channel}
use pcm3060_kernelmodule.Transceiver.Channel.{CanSend}
use pcm3060_kernelmodule.Transceiver.Oldest.{channel_sends_oldest}
use pcm3060_kernelmodule.Chrdev.{
  Chrdev, Channel, left_channel, right_channel, File, channel_rings, set_rings, chrdev_pcm3060_read,
  chrdev_pcm3060_write,
}
use pcm3060_kernelmodule.Chrdev.Transfer.{
  IsOpen, channel_rings-set, write_queues, read_returns_lost,
}

-- Writes and reads of one channel's file, and calls of the transceiver on that channel, in any order;
-- with the bytes that the writes' user copies brought into the kernel, and those that the calls put at
-- the front of `mem_tx` for their messages. A user copy may leave bytes out. Each call of the
-- transceiver starts from any state in which it can send, so that the other channel's calls, the
-- callbacks and the controller may have done anything to it since the last one, and the controller may
-- refuse the message. Each transfer lies in one piece of its ring.
pub data Session (al : Allocator) (sp : SpiController) (uc : UserCopy) (c : Channel) (h : al.Heap)
    : File → Chrdev → List ℕ → List ℕ → Chrdev → Type 0 where
  done : {file : File} {s : Chrdev} → Session al sp uc c h file s [] [] s
  write :
      {file file' : File} {s s' s'' : Chrdev} {code : ℕ} {ins outs : List ℕ} (src : List ℕ) (n : ℕ)
      → FitsInOnePiece (channel_rings c s).buffer_a n
      → n < 2 ^ 32
      → chrdev_pcm3060_write al uc file (some src) n s h ≡ ok ((code, file', s'), h)
      → Session al sp uc c h file' s' ins outs s''
      → Session al sp uc c h file s ((uc.from_user src n).0 ++ ins) outs s''
  read :
      {file file' : File} {s s' s'' : Chrdev} {code : ℕ} {out : Option (List ℕ)} {ins outs : List ℕ}
      (dst : List ℕ) (n : ℕ)
      → n ≤ ring_buffer_n_bytes_readable (channel_rings c s).buffer_b
      → n ≤ (channel_rings c s).buffer_b.size - (channel_rings c s).buffer_b.read_idx
      → n < 2 ^ 32
      → chrdev_pcm3060_read al uc file (some dst) n s h ≡ ok ((code, out, file', s'), h)
      → Session al sp uc c h file' s' ins outs s''
      → Session al sp uc c h file s ins outs s''
  load :
      {file : File} {s s'' : Chrdev} {t t' : Transceiver} {b' : sp.Bus} {d : DuplexRings} {code : ℕ}
      {ins outs : List ℕ} (b : sp.Bus) (p : ℕ)
      → CanSend t p
      → (let r = channel_rings c s in
          r.buffer_a.read_idx + min (length (incoming r right)) 3 ≤ r.buffer_a.size)
      → tx_rx_on_channel sp uc (some right_end) (channel_rings c s) t b ≡ ok (code, d, t', b')
      → Session al sp uc c h file (set_rings c d s) ins outs s''
      → Session al sp uc c h file s ins
          (take (min (length (incoming (channel_rings c s) right)) 3) t'.mem_tx ++ outs)
          s''

IsOpen-set :
    {al : Allocator} {file file' : File} {c : Channel} {s : Chrdev} {h : al.Heap} (d : DuplexRings)
    → IsOpen al file c s h
    → file'.private_data ≡ file.private_data
    → IsOpen al file' c (set_rings c d s) h
IsOpen-set {c = left_channel} d v e = record {
  pointer = v.pointer;
  buffer = v.buffer;
  data_of = e ∙ v.data_of;
  device = v.device;
  device_live = v.device_live;
  has_buffer = v.has_buffer;
  buffer_live = v.buffer_live;
  crossed = v.crossed;
}
IsOpen-set {c = right_channel} d v e = record {
  pointer = v.pointer;
  buffer = v.buffer;
  data_of = e ∙ v.data_of;
  device = v.device;
  device_live = v.device_live;
  has_buffer = v.has_buffer;
  buffer_live = v.buffer_live;
  crossed = v.crossed;
}

-- What one step leaves: an open file, valid rings, and the bytes that wait for the transceiver.
record After (al : Allocator) (c : Channel) (h : al.Heap) (file : File) (s : Chrdev)
    (queue : List ℕ) : Type 0 where
  open_file : IsOpen al file c s h
  valid : IsValidPair (channel_rings c s)
  waits : incoming (channel_rings c s) right ≡ queue

After-set :
    {al : Allocator} {file file' : File} {c : Channel} {s s' : Chrdev} {h : al.Heap}
    {queue : List ℕ} (d : DuplexRings)
    → IsOpen al file c s h
    → file'.private_data ≡ file.private_data
    → s' ≡ set_rings c d s
    → IsValidPair d
    → incoming d right ≡ queue
    → After al c h file' s' queue
After-set {al} {file' = file'} {c} {s} {h} {queue} d o e same valid waits =
    subst (λ s. After al c h file' s queue) (sym same)
      (record {
        open_file = IsOpen-set d o e;
        valid = subst IsValidPair (sym (channel_rings-set c d s)) valid;
        waits = ap (λ d. incoming d right) (channel_rings-set c d s) ∙ waits;
      })

module _ {al : Allocator} (uc : UserCopy) {c : Channel} {h : al.Heap} where
  After-write :
      {file file' : File} {s s' : Chrdev} {code : ℕ} (src : List ℕ) (n : ℕ)
      → IsOpen al file c s h
      → IsValidPair (channel_rings c s)
      → FitsInOnePiece (channel_rings c s).buffer_a n
      → n < 2 ^ 32
      → chrdev_pcm3060_write al uc file (some src) n s h ≡ ok ((code, file', s'), h)
      → After al c h file' s' (incoming (channel_rings c s) right ++ (uc.from_user src n).0)
  After-write {file} {file'} {s} {s'} {code} src n o v fits small e =
      let lost = (uc.from_user src n).1 in
      let (d, called, valid, queue, _, _, _, _, _) =
        write_queues al uc {file = file} {c = c} {s = s} {h = h} src n o v fits small in
      elim (Bool-cases (lost == 0)) [
        | inl whole ↦
            let known : chrdev_pcm3060_write al uc file (some src) n s h
                ≡ ok ((n, record file { f_pos = file.f_pos + n }, set_rings c d s), h) =
              called ∙ rw whole refl in
            let at_file : record file { f_pos = file.f_pos + n } ≡ file' = cc in
            let at_state : set_rings c d s ≡ s' = cc in
            After-set d o (sym (ap (λ f. f.private_data) at_file)) (sym at_state) valid queue
        | inr part ↦
            let known : chrdev_pcm3060_write al uc file (some src) n s h
                ≡ ok ((0, file, set_rings c d s), h) =
              called ∙ rw part refl in
            let at_file : file ≡ file' = cc in
            let at_state : set_rings c d s ≡ s' = cc in
            After-set d o (sym (ap (λ f. f.private_data) at_file)) (sym at_state) valid queue
      ]

  After-read :
      {file file' : File} {s s' : Chrdev} {code : ℕ} {out : Option (List ℕ)} (dst : List ℕ) (n : ℕ)
      → IsOpen al file c s h
      → IsValidPair (channel_rings c s)
      → n ≤ ring_buffer_n_bytes_readable (channel_rings c s).buffer_b
      → n ≤ (channel_rings c s).buffer_b.size - (channel_rings c s).buffer_b.read_idx
      → n < 2 ^ 32
      → chrdev_pcm3060_read al uc file (some dst) n s h ≡ ok ((code, out, file', s'), h)
      → After al c h file' s' (incoming (channel_rings c s) right)
  After-read {file} {file'} {s} {s'} dst n o v there one small e =
      let (d, called, valid, _, queue) =
        read_returns_lost al uc {file = file} {c = c} {s = s} {h = h} dst n o v there one small in
      let lost = (uc.to_user dst (take n (incoming (channel_rings c s) left))).1 in
      let at_file : record file { f_pos = file.f_pos + lost } ≡ file' = cc in
      let at_state : set_rings c d s ≡ s' = cc in
      After-set d o (sym (ap (λ f. f.private_data) at_file)) (sym at_state) valid queue

  -- The transceiver's call; the channel's file is as it was.
  After-load :
      (sp : SpiController) {file : File} {s : Chrdev} {t t' : Transceiver} {b' : sp.Bus}
      {d : DuplexRings} {code : ℕ} (b : sp.Bus) (p : ℕ)
      → IsOpen al file c s h
      → IsValidPair (channel_rings c s)
      → CanSend t p
      → (let r = channel_rings c s in
          r.buffer_a.read_idx + min (length (incoming r right)) 3 ≤ r.buffer_a.size)
      → tx_rx_on_channel sp uc (some right_end) (channel_rings c s) t b ≡ ok (code, d, t', b')
      → let n = min (length (incoming (channel_rings c s) right)) 3 in
        After al c h file (set_rings c d s) (drop n (incoming (channel_rings c s) right))
        × (take n t'.mem_tx ≡ take n (incoming (channel_rings c s) right))
  After-load sp {file} {s} {t} {t'} {b'} {d} b p o v can one e =
      let n = min (length (incoming (channel_rings c s) right)) 3 in
      let (d0, t0, did, called, mem, gone) = channel_sends_oldest sp uc b p v can one in
      let at_rings : d ≡ d0 = cc in
      let at_tx : t' ≡ t0 = cc in
      (
        After-set d o refl refl (subst IsValidPair (sym at_rings) called.valid)
            (ap (λ d. incoming d right) at_rings ∙ gone),
        ap (λ t. take n t.mem_tx) at_tx
            ∙ ap (λ xs. take n xs) mem
            ∙ take-append_all n (take n (incoming (channel_rings c s) right)) (drop n t.mem_tx)
                (omega (arith, length-take n (incoming (channel_rings c s) right))),
      )

module _ {al : Allocator} (sp : SpiController) (uc : UserCopy) {c : Channel} {h : al.Heap} where
  -- First in, first out, from the file to `mem_tx`: where one channel's file of an open device is
  -- written and read, and the transceiver is called on that channel, in any order and with each
  -- transfer in one piece of its ring, what waited for the transceiver and what the user copies of the
  -- writes brought is, in this order, what the transceiver's calls put at the front of `mem_tx` and what
  -- waits at the end. The channel's rings are valid at the end.
  pub Session-order :
      {file : File} {s s' : Chrdev} {ins outs : List ℕ}
      → Session al sp uc c h file s ins outs s'
      → IsOpen al file c s h
      → IsValidPair (channel_rings c s)
      → (incoming (channel_rings c s) right ++ ins ≡ outs ++ incoming (channel_rings c s') right)
        × IsValidPair (channel_rings c s')
  Session-order {s} done o v = (append-nil (incoming (channel_rings c s) right), v)
  Session-order {s} {s'} (write {ins} src n fits small e rest) o v =
      let next = After-write uc src n o v fits small e in
      let (order, valid) = Session-order rest next.open_file next.valid in
      (
        sym (append_assoc (incoming (channel_rings c s) right) (uc.from_user src n).0 ins)
            ∙ ap (λ xs. xs ++ ins) (sym next.waits)
            ∙ order,
        valid,
      )
  Session-order {s} {s'} (read {ins} dst n there one small e rest) o v =
      let next = After-read uc dst n o v there one small e in
      let (order, valid) = Session-order rest next.open_file next.valid in
      (ap (λ xs. xs ++ ins) (sym next.waits) ∙ order, valid)
  Session-order {s} {s'} (load {t' = t1} {ins} {outs} b p can one e rest) o v =
      let q = incoming (channel_rings c s) right in
      let n = min (length q) 3 in
      let (next, front) = After-load uc sp b p o v can one e in
      let (order, valid) = Session-order rest next.open_file next.valid in
      (
        ground (
          arith,
          order,
          front,
          next.waits,
          take-append-drop n q,
          append_assoc (take n q) (drop n q) ins,
          append_assoc (take n t1.mem_tx) outs (incoming (channel_rings c s') right),
        ),
        valid,
      )
