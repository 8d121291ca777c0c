-- ===== src/Ring/Contents.antt =====
-- The queue that a ring holds, and what the calls do to it when their bytes lie in one piece.
use pcm3060_kernelmodule.Prelude.{
  ℕ, ◌+◌, ◌-◌, ◌%◌, ◌≤◌, ◌<◌, ◌≡◌, List, ◌++◌, append-nil, append_assoc, arith, ltb, if◌then◌else◌,
  length, take, drop, slice, splice, length-slice, length-append, slice-zero, slice-splice_after,
  slice-splice_end, drop-slice, slice-slice, take-append, drop-append, drop-all, dec_lt,
}
use pcm3060_kernelmodule.Prelude.Words.{sub32, mod_below, mod_full}
use pcm3060_kernelmodule.Ring.{
  RingBuffer, write_split, ring_buffer_n_bytes_readable, ring_buffer_n_bytes_writable,
}
use pcm3060_kernelmodule.Ring.Bounds.{IsValid}

-- The readable bytes, oldest first.
unfoldable pub contents : RingBuffer → List ℕ
contents r =
    if ltb r.write_idx r.read_idx
    then slice r.read_idx (r.size - r.read_idx) r.buf ++ slice 0 r.write_idx r.buf
    else slice r.read_idx (r.write_idx - r.read_idx) r.buf

pub length-contents :
    {r : RingBuffer} → IsValid r → length (contents r) ≡ ring_buffer_n_bytes_readable r
unfolding contents ring_buffer_n_bytes_readable sub32
length-contents {r} v = ground (
  arith,
  length-append (slice r.read_idx (r.size - r.read_idx) r.buf) (slice 0 r.write_idx r.buf),
  length-slice r.read_idx (r.size - r.read_idx) r.buf,
  length-slice 0 r.write_idx r.buf,
  length-slice r.read_idx (r.write_idx - r.read_idx) r.buf,
)

-- The bytes go to one piece of the storage, and do not make the ring look empty.
pub record FitsInOnePiece (r : RingBuffer) (n : ℕ) : Type 0 where
  pub room : n < ring_buffer_n_bytes_writable r
  pub ahead : n ≤ r.size - r.write_idx

pub write_split_one_piece :
    {r : RingBuffer} (n : ℕ) → IsValid r → FitsInOnePiece r n → write_split r n ≡ (n, 0)
unfolding write_split sub32 ring_buffer_n_bytes_writable
write_split_one_piece n v f = ground arith

-- Writing `bs` at the write index, as the queue sees it.
pub contents-append :
    {r : RingBuffer} (bs : List ℕ)
    → IsValid r
    → FitsInOnePiece r (length bs)
    → contents (record r {
      buf = splice r.buf r.write_idx bs;
      write_idx = (r.write_idx + length bs) % r.size;
    })
      ≡ contents r ++ bs
unfolding contents ring_buffer_n_bytes_writable sub32
contents-append {r} bs v f = elim (dec_lt r.write_idx r.read_idx) [
  | yes behind ↦
      let idx = mod_below {a = r.write_idx + length bs} {m = r.size} (ground arith) in
      ground (
        arith,
        idx,
        slice-splice_after r.buf r.write_idx bs r.read_idx (r.size - r.read_idx),
        slice-splice_end r.buf r.write_idx bs 0,
        append_assoc (slice r.read_idx (r.size - r.read_idx) r.buf) (slice 0 r.write_idx r.buf) bs,
      )
  | no ahead ↦ elim (dec_lt (r.write_idx + length bs) r.size) [
    | yes inside ↦
        let idx = mod_below {a = r.write_idx + length bs} {m = r.size} (omega arith) in
        ground (arith, idx, slice-splice_end r.buf r.write_idx bs r.read_idx)
    | no last ↦
        let idx = mod_full {a = r.write_idx + length bs} {m = r.size} (ground arith) in
        ground (
          arith,
          idx,
          slice-splice_end r.buf r.write_idx bs r.read_idx,
          slice-zero 0 (splice r.buf r.write_idx bs),
          append-nil (slice r.read_idx (r.size - r.read_idx) (splice r.buf r.write_idx bs)),
        )
  ]
]

-- The first `n` readable bytes in one piece, and the queue without them.
pub contents-front :
    {r : RingBuffer} (n : ℕ)
    → IsValid r
    → n ≤ ring_buffer_n_bytes_readable r
    → n ≤ r.size - r.read_idx
    → (slice r.read_idx n r.buf ≡ take n (contents r))
      × (contents (record r { read_idx = (r.read_idx + n) % r.size }) ≡ drop n (contents r))
unfolding contents ring_buffer_n_bytes_readable sub32
contents-front {r} n v h k = elim (dec_lt r.write_idx r.read_idx) [
  | yes behind ↦ elim (dec_lt (r.read_idx + n) r.size) [
    | yes inside ↦
        let idx = mod_below {a = r.read_idx + n} {m = r.size} inside in
        ground (
          arith,
          idx,
          slice-slice r.read_idx (r.size - r.read_idx) n r.buf,
          drop-slice r.read_idx (r.size - r.read_idx) n r.buf,
          length-slice r.read_idx (r.size - r.read_idx) r.buf,
          take-append n (slice r.read_idx (r.size - r.read_idx) r.buf) (slice 0 r.write_idx r.buf),
          drop-append n (slice r.read_idx (r.size - r.read_idx) r.buf) (slice 0 r.write_idx r.buf),
        )
    | no last ↦
        let idx = mod_full {a = r.read_idx + n} {m = r.size} (omega arith) in
        ground (
          arith,
          idx,
          slice-slice r.read_idx (r.size - r.read_idx) n r.buf,
          length-slice r.read_idx (r.size - r.read_idx) r.buf,
          drop-all n (slice r.read_idx (r.size - r.read_idx) r.buf),
          take-append n (slice r.read_idx (r.size - r.read_idx) r.buf) (slice 0 r.write_idx r.buf),
          drop-append n (slice r.read_idx (r.size - r.read_idx) r.buf) (slice 0 r.write_idx r.buf),
        )
  ]
  | no ahead ↦
      let idx = mod_below {a = r.read_idx + n} {m = r.size} (ground arith) in
      ground (
        arith,
        idx,
        slice-slice r.read_idx (r.write_idx - r.read_idx) n r.buf,
        drop-slice r.read_idx (r.write_idx - r.read_idx) n r.buf,
      )
]
