-- ===== src/Ring/Lifetime.antt =====
-- get_ring_buffer and put_ring_buffer: a ring object is three blocks.
use pcm3060_kernelmodule.Prelude.{
  ℕ, ◌≤◌, ◌<◌, ◌^◌, ◌≡◌, refl, length, false, List, [], ◌∷◌, ◌++◌, Option, none, some,
}
use pcm3060_kernelmodule.Prelude.Words.{sub32}
use pcm3060_kernelmodule.Kernel.Run.{ok}
use pcm3060_kernelmodule.Kernel.Alloc.{
  Ptr, Block, Allocator, Struct, Mem, malloc, free, pure, ◌>>=◌, ◌>>◌,
}
use pcm3060_kernelmodule.Kernel.Owned.{Owns, Owns-nil, malloc_lem, free_lem}
use pcm3060_kernelmodule.Kernel.Returns
use pcm3060_kernelmodule.Kernel.Returns.{Returns, returns}
use pcm3060_kernelmodule.Ring.{RingBuffer, ring_buffer_n_bytes_readable}
use pcm3060_kernelmodule.Ring.Bounds.{IsValid}

-- A `ring_buffer_t *` with the blocks behind it.
pub record RingObject : Type 0 where
  pub self : Ptr
  pub impl_p : Ptr
  pub buf_p : Ptr
  pub ring : RingBuffer

module _ (al : Allocator) where
  open al use {Heap, sizeof}

  -- The blocks of `_ring_buffer_impl_t` and of its bytes; NULL if either is missing.
  unfoldable pub get_ringbuffer_impl : ℕ → Mem al (Option (Ptr × Block))
  get_ringbuffer_impl size = do
    newbuf ← malloc al (sizeof Struct.ring_buffer_impl)
    elim newbuf [
      | none ↦ pure none
      | some impl ↦ do
        buf ← malloc al size
        elim buf [
          | none ↦ (do free al impl.addr; pure none)
          | some bytes ↦ pure (some (impl.addr, bytes))
        ]
    ]

  unfoldable pub get_ring_buffer : ℕ → Mem al (Option RingObject)
  unfolding get_ringbuffer_impl
  get_ring_buffer size = do
    newbuf ← malloc al (sizeof Struct.ring_buffer)
    elim newbuf [
      | none ↦ pure none
      | some self ↦ do
        impl ← get_ringbuffer_impl size
        elim impl [
          | none ↦ (do free al self.addr; pure none)
          | some (impl_p, buf) ↦ pure (
              some (record {
                self = self.addr;
                impl_p = impl_p;
                buf_p = buf.addr;
                ring = record {
                  size = size;
                  buf = buf.bytes;
                  read_idx = 0;
                  write_idx = 0;
                  mx = false;
                };
              }))
        ]
    ]

  -- `_put_ringbuffer_impl`
  unfoldable pub put_ringbuffer_impl : RingObject → Mem al (Unit {0})
  put_ringbuffer_impl o = do free al o.buf_p; free al o.impl_p

  unfoldable pub put_ring_buffer : Option RingObject → Mem al (Unit {0})
  unfolding put_ringbuffer_impl
  put_ring_buffer none = pure tt
  put_ring_buffer (some o) = do put_ringbuffer_impl o; free al o.self

  -- The blocks of a ring object, the last allocated first.
  abbrev pub blocks : RingObject → List Ptr
  blocks o = o.buf_p ∷ o.impl_p ∷ o.self ∷ []

  abbrev GotImpl : ℕ → List Ptr → Heap → Option (Ptr × Block) → Heap → Type 0
  GotImpl size ps h none g = Owns al ps h g
  GotImpl size ps h (some (impl_p, buf)) g =
      Owns al (buf.addr ∷ impl_p ∷ ps) h g × (length buf.bytes ≡ size)

  -- What `get_ring_buffer` leaves: nothing on failure, or the object's blocks and an empty ring.
  abbrev pub Got : ℕ → List Ptr → Heap → Option RingObject → Heap → Type 0
  Got size ps h none g = Owns al ps h g
  Got size ps h (some o) g =
      Owns al (blocks o ++ ps) h g
      × (o.ring.size ≡ size)
      × (0 < size → size ≤ 2 ^ 31 → IsValid o.ring)
      × (ring_buffer_n_bytes_readable o.ring ≡ 0)

  get_ringbuffer_impl_lem :
      {ps : List Ptr} {h g : Heap} (size : ℕ)
      → Owns al ps h g
      → Returns (GotImpl size ps h) (get_ringbuffer_impl size g)
  unfolding get_ringbuffer_impl
  get_ringbuffer_impl_lem size own = Returns.bind (malloc_lem al _ own) (elim [
    | none ↦ λ g o. returns o
    | some impl ↦ λ g o. Returns.bind (malloc_lem al size o.0) (elim [
      | none ↦ λ g o. Returns.bind (free_lem al [] impl.addr _ o) λ _ g o. returns o
      | some bytes ↦ λ g o. returns o
    ])
  ])

  -- `get_ring_buffer` always returns. It fails with everything freed that it had allocated, or
  -- hands out three fresh blocks with an empty ring of that size, valid if the size is.
  pub get_ring_buffer_lem :
      {ps : List Ptr} {h g : Heap} (size : ℕ)
      → Owns al ps h g
      → Returns (Got size ps h) (get_ring_buffer size g)
  unfolding get_ring_buffer ring_buffer_n_bytes_readable sub32
  get_ring_buffer_lem size own = Returns.bind (malloc_lem al _ own) (elim [
    | none ↦ λ g o. returns o
    | some self ↦ λ g o. Returns.bind (get_ringbuffer_impl_lem size o.0) (elim [
      | none ↦ λ g o. Returns.bind (free_lem al [] self.addr _ o) λ _ g o. returns o
      | some (impl_p, buf) ↦ λ g (o, len). returns (
        o,
        refl,
        λ pos small. record {
          storage = len;
          small = small;
          read_in = pos;
          write_in = pos;
          idle = refl;
        },
        refl,
      )
    ])
  ])

  -- `put_ring_buffer` frees the blocks of its object, wherever they stand among the caller's.
  pub put_ring_buffer_lem :
      {h g : Heap} (xs : List Ptr) (o : RingObject) (ys : List Ptr)
      → Owns al (xs ++ o.buf_p ∷ o.impl_p ∷ o.self ∷ ys) h g
      → Returns (λ _ g'. Owns al (xs ++ ys) h g') (put_ring_buffer (some o) g)
  unfolding put_ring_buffer
  put_ring_buffer_lem xs o ys own =
      Returns.bind
        (Returns.bind (free_lem al xs o.buf_p _ own) λ _ g own. free_lem al xs o.impl_p _ own)
        λ _ g own. free_lem al xs o.self ys own

  -- `get_ring_buffer` followed by `put_ring_buffer` on what it returned, NULL included, returns and
  -- leaves the heap's live blocks as they were: nothing leaks and nothing is freed twice.
  pub get_put_keeps_heap :
      (size : ℕ) (h : Heap)
      → (h' : Heap) × ((get_ring_buffer size >>= put_ring_buffer) h ≡ ok (tt, h'))
        × ((q : Ptr) → al.live h' q ≡ al.live h q)
  unfolding put_ring_buffer
  get_put_keeps_heap size h =
      let (_, h', done, own) = Returns.outcome (
        Returns.bind (get_ring_buffer_lem size (Owns-nil al h)) (elim [
          | none ↦ λ g own. returns own
          | some o ↦ λ g got. put_ring_buffer_lem [] o [] got.0
        ])) in
      (h', done, own.exact)
