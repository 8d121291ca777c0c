-- ===== src/DuplexRing/Lifetime.antt =====
-- get_duplex_ring_buffer and put_duplex_ring_buffer: ten blocks are allocated, eight are freed.
use pcm3060_kernelmodule.Prelude.{
  ℕ, ◌/◌, ◌<◌, ◌^◌, ◌≡◌, refl, List, [], ◌∷◌, ◌++◌, Option, none, some, arith,
}
use pcm3060_kernelmodule.Kernel.Run.{ok}
use pcm3060_kernelmodule.Kernel.Alloc.{Ptr, Allocator, Struct, Mem, malloc, free, pure, ◌>>=◌, ◌>>◌}
use pcm3060_kernelmodule.Kernel.Owned.{
  Owns, Owns-nil, Owns-regroup, Owns-flatten, malloc_lem, free_lem,
}
use pcm3060_kernelmodule.Kernel.Returns
use pcm3060_kernelmodule.Kernel.Returns.{Returns, returns}
use pcm3060_kernelmodule.Ring.{ring_buffer_n_bytes_readable}
use pcm3060_kernelmodule.Ring.Bounds.{IsValid}
use pcm3060_kernelmodule.Ring.Lifetime.{
  RingObject, blocks, get_ring_buffer, put_ring_buffer, get_ring_buffer_lem, put_ring_buffer_lem,
}
use pcm3060_kernelmodule.DuplexRing.{DuplexRingEnd, RingPtr, a_ptr, b_ptr, left_end, right_end}

-- `_duplex_ring_buffer_impl_t *`, and a `duplex_ring_end_t *`
pub record ImplObject : Type 0 where
  pub self : Ptr
  pub buffer_a : RingObject
  pub buffer_b : RingObject

pub record EndObject : Type 0 where
  pub self : Ptr
  pub ring_end : DuplexRingEnd

-- `duplex_ring_buffer_t *`
pub record DuplexObject : Type 0 where
  pub self : Ptr
  pub size : ℕ
  pub left_end : EndObject
  pub right_end : EndObject
  pub impl : ImplObject

module _ (al : Allocator) where
  open al use {Heap, sizeof}

  unfoldable pub get_duplex_ring_buffer_impl : ℕ → Mem al (Option ImplObject)
  get_duplex_ring_buffer_impl size = do
    newbuf ← malloc al (sizeof Struct.duplex_ring_buffer_impl)
    elim newbuf [
      | none ↦ pure none
      | some self ↦ do
        buffer_a ← get_ring_buffer al (size / 2)
        elim buffer_a [
          | none ↦ (do free al self.addr; pure none)
          | some a ↦ do
            buffer_b ← get_ring_buffer al (size / 2)
            elim buffer_b [
              | none ↦ (do put_ring_buffer al (some a); free al self.addr; pure none)
              | some b ↦ pure (some (record { self = self.addr; buffer_a = a; buffer_b = b }))
            ]
        ]
    ]

  unfoldable pub put_duplex_ring_buffer_impl : ImplObject → Mem al (Unit {0})
  put_duplex_ring_buffer_impl o = do
    put_ring_buffer al (some o.buffer_a)
    put_ring_buffer al (some o.buffer_b)
    free al o.self

  unfoldable pub get_duplex_ring_end : RingPtr → RingPtr → Mem al (Option EndObject)
  get_duplex_ring_end wr_buf rd_buf = do
    newbuf ← malloc al (sizeof Struct.duplex_ring_end)
    elim newbuf [
      | none ↦ pure none
      | some b ↦ pure (
          some (record {
            self = b.addr;
            ring_end = record { read_buffer = rd_buf; write_buffer = wr_buf };
          }))
    ]

  unfoldable pub put_duplex_ring_end : EndObject → Mem al (Unit {0})
  put_duplex_ring_end e = free al e.self

  unfoldable pub get_duplex_ring_buffer : ℕ → Mem al (Option DuplexObject)
  get_duplex_ring_buffer size = do
    newbuf ← malloc al (sizeof Struct.duplex_ring_buffer)
    elim newbuf [
      | none ↦ pure none
      | some self ↦ do
        impl ← get_duplex_ring_buffer_impl size
        elim impl [
          | none ↦ (do free al self.addr; pure none)
          | some impl ↦ do
            left ← get_duplex_ring_end a_ptr b_ptr
            elim left [
              | none ↦ (do put_duplex_ring_buffer_impl impl; free al self.addr; pure none)
              | some left ↦ do
                right ← get_duplex_ring_end b_ptr a_ptr
                elim right [
                  | none ↦ (do
                    put_duplex_ring_end left
                    put_duplex_ring_buffer_impl impl
                    free al self.addr
                    pure none)
                  | some right ↦ pure (
                      some (record {
                        self = self.addr;
                        size = size;
                        left_end = left;
                        right_end = right;
                        impl = impl;
                      }))
                ]
            ]
        ]
    ]

  unfoldable pub put_duplex_ring_buffer : Option DuplexObject → Mem al (Unit {0})
  put_duplex_ring_buffer none = pure tt
  put_duplex_ring_buffer (some o) = do put_duplex_ring_buffer_impl o.impl; free al o.self

  -- The blocks of the implementation, and of the whole, the last allocated first.
  abbrev pub impl_blocks : ImplObject → List Ptr
  impl_blocks o = blocks al o.buffer_b ++ (blocks al o.buffer_a ++ o.self ∷ [])

  abbrev GotImpl : ℕ → List Ptr → Heap → Option ImplObject → Heap → Type 0
  GotImpl size ps h none g = Owns al ps h g
  GotImpl size ps h (some o) g =
      Owns al (impl_blocks o ++ ps) h g
      × (0 < size / 2 → size < 2 ^ 32 → IsValid o.buffer_a.ring × IsValid o.buffer_b.ring)
      × (ring_buffer_n_bytes_readable o.buffer_a.ring ≡ 0)
      × (ring_buffer_n_bytes_readable o.buffer_b.ring ≡ 0)

  abbrev GotEnd : RingPtr → RingPtr → List Ptr → Heap → Option EndObject → Heap → Type 0
  GotEnd wr rd ps h none g = Owns al ps h g
  GotEnd wr rd ps h (some e) g =
      Owns al (e.self ∷ ps) h g × (e.ring_end ≡ record { read_buffer = rd; write_buffer = wr })

  -- The blocks that `put_duplex_ring_buffer` does not free.
  abbrev pub leaked : Option DuplexObject → List Ptr
  leaked none = []
  leaked (some o) = o.right_end.self ∷ o.left_end.self ∷ []

  get_impl_lem :
      {ps : List Ptr} {h g : Heap} (size : ℕ)
      → Owns al ps h g
      → Returns (GotImpl size ps h) (get_duplex_ring_buffer_impl size g)
  unfolding get_duplex_ring_buffer_impl
  get_impl_lem {ps} size own = Returns.bind (malloc_lem al _ own) (elim [
    | none ↦ λ g o. returns o
    | some self ↦ λ g o. Returns.bind (get_ring_buffer_lem al (size / 2) o.0) (elim [
      | none ↦ λ g o. Returns.bind (free_lem al [] self.addr _ o) λ _ g o. returns o
      | some a ↦ λ g agot. Returns.bind (get_ring_buffer_lem al (size / 2) agot.0) (elim [
        | none ↦ λ g o.
            Returns.bind (put_ring_buffer_lem al [] a (self.addr ∷ ps) o)
              λ _ g o. Returns.bind (free_lem al [] self.addr ps o) λ _ g o. returns o
        | some b ↦ λ g bgot. returns (
          bgot.0,
          (λ pos lt. (agot.2 pos (omega arith), bgot.2 pos (omega arith))),
          agot.3,
          bgot.3,
        )
      ])
    ])
  ])

  put_impl_lem :
      {h g : Heap} (xs : List Ptr) (o : ImplObject) (ys : List Ptr)
      → Owns al (xs ++ (impl_blocks o ++ ys)) h g
      → Returns (λ _ g'. Owns al (xs ++ ys) h g') (put_duplex_ring_buffer_impl o g)
  unfolding put_duplex_ring_buffer_impl
  put_impl_lem {h} xs o ys own =
      let b = blocks al o.buffer_b in
      Returns.bind
        (put_ring_buffer_lem al (xs ++ b) o.buffer_a (o.self ∷ ys) (Owns-regroup al xs b _ own))
        λ _ g own.
          Returns.bind
            (put_ring_buffer_lem al xs o.buffer_b (o.self ∷ ys) (Owns-flatten al xs b _ own))
            λ _ g own. free_lem al xs o.self ys own

  -- What `get_duplex_ring_buffer` leaves: nothing on failure, or an object of ten blocks, whose ends
  -- are crossed and whose rings are empty and valid, if half the size is.
  abbrev pub GotDuplex : ℕ → List Ptr → Heap → Option DuplexObject → Heap → Type 0
  GotDuplex size ps h none g = Owns al ps h g
  GotDuplex size ps h (some o) g =
      Owns al (o.right_end.self ∷ o.left_end.self ∷ (impl_blocks o.impl ++ (o.self ∷ ps))) h g
      × (o.left_end.ring_end ≡ left_end)
      × (o.right_end.ring_end ≡ right_end)
      × (0 < size / 2 → size < 2 ^ 32 → IsValid o.impl.buffer_a.ring × IsValid o.impl.buffer_b.ring)
      × (ring_buffer_n_bytes_readable o.impl.buffer_a.ring ≡ 0)
      × (ring_buffer_n_bytes_readable o.impl.buffer_b.ring ≡ 0)

  get_end_lem :
      {ps : List Ptr} {h g : Heap} (wr rd : RingPtr)
      → Owns al ps h g
      → Returns (GotEnd wr rd ps h) (get_duplex_ring_end wr rd g)
  unfolding get_duplex_ring_end
  get_end_lem wr rd own =
      Returns.bind (malloc_lem al _ own)
        (elim [ none ↦ λ g o. returns o | some b ↦ λ g o. returns (o.0, refl) ])

  -- `get_duplex_ring_buffer` always returns; on failure it has freed all that it had allocated.
  pub get_duplex_ring_buffer_lem :
      {ps : List Ptr} {h g : Heap} (size : ℕ)
      → Owns al ps h g
      → Returns (GotDuplex size ps h) (get_duplex_ring_buffer size g)
  unfolding get_duplex_ring_buffer put_duplex_ring_end
  get_duplex_ring_buffer_lem {ps} size own = Returns.bind (malloc_lem al _ own) (elim [
    | none ↦ λ g o. returns o
    | some self ↦ λ g o. Returns.bind (get_impl_lem size o.0) (elim [
      | none ↦ λ g o. Returns.bind (free_lem al [] self.addr ps o) λ _ g o. returns o
      | some impl ↦ λ g got. Returns.bind (get_end_lem a_ptr b_ptr got.0) (elim [
        | none ↦ λ g o.
            Returns.bind (put_impl_lem [] impl (self.addr ∷ ps) o)
              λ _ g o. Returns.bind (free_lem al [] self.addr ps o) λ _ g o. returns o
        | some l ↦ λ g lgot. Returns.bind (get_end_lem b_ptr a_ptr lgot.0) (elim [
          | none ↦ λ g o. Returns.bind (free_lem al [] l.self _ o) λ _ g o.
              Returns.bind (put_impl_lem [] impl (self.addr ∷ ps) o)
                λ _ g o. Returns.bind (free_lem al [] self.addr ps o) λ _ g o. returns o
          | some r ↦ λ g rgot. returns (rgot.0, lgot.1, rgot.1, got.1, got.2, got.3)
        ])
      ])
    ])
  ])

  -- `put_duplex_ring_buffer` frees all but the two ends.
  pub put_duplex_ring_buffer_lem :
      {h g : Heap} (xs : List Ptr) (o : DuplexObject) (ys : List Ptr)
      → Owns al (xs ++ (impl_blocks o.impl ++ (o.self ∷ ys))) h g
      → Returns (λ _ g'. Owns al (xs ++ ys) h g') (put_duplex_ring_buffer (some o) g)
  unfolding put_duplex_ring_buffer
  put_duplex_ring_buffer_lem xs o ys own =
      Returns.bind (put_impl_lem xs o.impl (o.self ∷ ys) own)
        λ _ g own. free_lem al xs o.self ys own

  put_got :
      (size : ℕ) {h : Heap} (g : Heap) (o : Option DuplexObject)
      → GotDuplex size [] h o g
      → Returns (λ _ g'. Owns al (leaked o) h g') (put_duplex_ring_buffer o g)
  unfolding put_duplex_ring_buffer
  put_got size g none own = returns own
  put_got size g (some o) got =
      put_duplex_ring_buffer_lem (o.right_end.self ∷ o.left_end.self ∷ []) o [] got.0

  -- `get_duplex_ring_buffer` followed by `put_duplex_ring_buffer` on what it returned always
  -- returns. If the first call failed, the heap's live blocks are as before; otherwise exactly two
  -- blocks stay behind, the two ends, which were free before.
  pub get_put_leaks_ends :
      (size : ℕ) (h : Heap)
      → (o : Option DuplexObject) × (h' : Heap) × (h'' : Heap) × (get_duplex_ring_buffer size h
          ≡ ok (o, h'))
        × (put_duplex_ring_buffer o h' ≡ ok (tt, h''))
        × Owns al (leaked o) h h''
  get_put_leaks_ends size h =
      let (o, h', done, got) = Returns.outcome (get_duplex_ring_buffer_lem size (Owns-nil al h)) in
      let (_, h'', freed, own) = Returns.outcome (put_got size h' o got) in
      (o, h', h'', done, freed, own)
