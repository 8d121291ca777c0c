-- ===== src/Buffer/Lifetime.antt =====
-- get_buffer and put_buffer: a buffer object is three blocks.
use pcm3060_kernelmodule.Prelude.{
  ℕ, ◌<◌, ◌^◌, ◌≡◌, refl, true, List, [], ◌∷◌, ◌++◌, Option, none, some, false, ◌⊎◌, inl, inr,
  arith, ℕ_discrete,
}
use pcm3060_kernelmodule.Kernel.Run.{ok}
use pcm3060_kernelmodule.Kernel.Alloc.{
  Ptr, Allocator, Struct, Mem, malloc, free, lift, pure, ◌>>=◌, ◌>>◌,
}
use pcm3060_kernelmodule.Kernel.Owned.{Owns, Owns-nil, malloc_lem, free_lem}
use pcm3060_kernelmodule.Kernel.Returns
use pcm3060_kernelmodule.Kernel.Returns.{Returns, returns}
use pcm3060_kernelmodule.Buffer.{Buffer, init_buffer, sync_buffer_impl}
use pcm3060_kernelmodule.Buffer.Invariant.{IsValid, contents}
use pcm3060_kernelmodule.Buffer.Transfer.{init_buffer-IsValid, init_buffer-contents}

-- A `buffer_t *` with the blocks behind it.
pub record BufferObject : Type 0 where
  pub self : Ptr
  pub impl_p : Ptr
  pub buf_p : Ptr
  pub buffer : Buffer

-- No writer is active, or the mutex can be taken: `_sync_buffer_impl` does not wait.
abbrev pub CanSync : Buffer → Type 0
CanSync b = (b.n_active_writters ≡ 0) ⊎ (b.mlock ≡ false)

sync_returns : (b : Buffer) → CanSync b → (b' : Buffer) × (sync_buffer_impl b ≡ ok b')
unfolding sync_buffer_impl
sync_returns b (inl none_active) = (record b { write_off = b.bufsize }, ground arith)
sync_returns b (inr unlocked) = elim (ℕ_discrete b.n_active_writters 0) [
  | yes none_active ↦ (record b { write_off = b.bufsize }, ground arith)
  | no active ↦ (record b { write_off = b.bufsize; mlock = true }, ground (arith, sync_buffer_impl))
]

module _ (al : Allocator) where
  open al use {Heap, sizeof}

  -- `_get_buffer_impl`: the blocks of `_buffer_impl_t` and of its bytes; NULL if either is missing.
  unfoldable pub get_buffer_impl : ℕ → Mem al (Option (Ptr × Ptr × Buffer))
  get_buffer_impl size = do
    newbuf ← malloc al (sizeof Struct.buffer_impl)
    elim newbuf [
      | none ↦ pure none
      | some impl ↦ do
        buf ← malloc al size
        elim buf [
          | none ↦ (do free al impl.addr; pure none)
          | some bytes ↦ pure (some (impl.addr, bytes.addr, init_buffer bytes.bytes size))
        ]
    ]

  unfoldable pub get_buffer : ℕ → Mem al (Option BufferObject)
  unfolding get_buffer_impl
  get_buffer size = do
    newbuf ← malloc al (sizeof Struct.buffer)
    elim newbuf [
      | none ↦ pure none
      | some self ↦ do
        impl ← get_buffer_impl size
        elim impl [
          | none ↦ (do free al self.addr; pure none)
          | some (impl_p, buf_p, b) ↦
              pure (some (record { self = self.addr; impl_p = impl_p; buf_p = buf_p; buffer = b }))
        ]
    ]

  -- `_put_buffer_impl` waits for the writers first.
  unfoldable pub put_buffer_impl : BufferObject → Mem al (Unit {0})
  put_buffer_impl o = do b ← lift (sync_buffer_impl o.buffer); free al o.buf_p; free al o.impl_p

  unfoldable pub put_buffer : Option BufferObject → Mem al (Unit {0})
  unfolding put_buffer_impl
  put_buffer none = pure tt
  put_buffer (some o) = do put_buffer_impl o; free al o.self

  -- The blocks of a buffer object, the last allocated first.
  abbrev pub blocks : BufferObject → List Ptr
  blocks o = o.buf_p ∷ o.impl_p ∷ o.self ∷ []

  -- What `get_buffer` leaves: nothing on failure, or the object's blocks and an empty buffer.
  abbrev pub Got : ℕ → List Ptr → Heap → Option BufferObject → Heap → Type 0
  Got size ps h none g = Owns al ps h g
  Got size ps h (some o) g =
      Owns al (blocks o ++ ps) h g
      × CanSync o.buffer
      × (size < 2 ^ 31 → IsValid o.buffer)
      × (contents o.buffer ≡ [])

  abbrev GotImpl : ℕ → List Ptr → Heap → Option (Ptr × Ptr × Buffer) → Heap → Type 0
  GotImpl size ps h none g = Owns al ps h g
  GotImpl size ps h (some (impl_p, buf_p, b)) g =
      Owns al (buf_p ∷ impl_p ∷ ps) h g
      × CanSync b
      × (size < 2 ^ 31 → IsValid b)
      × (contents b ≡ [])

  get_buffer_impl_lem :
      {ps : List Ptr} {h g : Heap} (size : ℕ)
      → Owns al ps h g
      → Returns (GotImpl size ps h) (get_buffer_impl size g)
  unfolding get_buffer_impl init_buffer
  get_buffer_impl_lem size own = Returns.bind (malloc_lem al _ own) (elim [
    | none ↦ λ g o. returns o
    | some impl ↦ λ g o. Returns.bind (malloc_lem al size o.0) (elim [
      | none ↦ λ g o. Returns.bind (free_lem al [] impl.addr _ o) λ _ g o. returns o
      | some bytes ↦ λ g (o, len). returns (
        o,
        inl refl,
        (λ small. init_buffer-IsValid bytes.bytes size len small),
        (init_buffer-contents bytes.bytes size).2,
      )
    ])
  ])

  -- `get_buffer` always returns. It fails with everything freed that it had allocated, or hands out
  -- three fresh blocks with an empty buffer.
  pub get_buffer_lem :
      {ps : List Ptr} {h g : Heap} (size : ℕ)
      → Owns al ps h g
      → Returns (Got size ps h) (get_buffer size g)
  unfolding get_buffer
  get_buffer_lem size own = Returns.bind (malloc_lem al _ own) (elim [
    | none ↦ λ g o. returns o
    | some self ↦ λ g o. Returns.bind (get_buffer_impl_lem size o.0) (elim [
      | none ↦ λ g o. Returns.bind (free_lem al [] self.addr _ o) λ _ g o. returns o
      | some (impl_p, buf_p, b) ↦ λ g got. returns (got.0, got.1, got.2, got.3)
    ])
  ])

  -- `put_buffer` frees the blocks of its object, unless it has to wait for a writer.
  pub put_buffer_lem :
      {h g : Heap} (xs : List Ptr) (o : BufferObject) (ys : List Ptr)
      → CanSync o.buffer
      → Owns al (xs ++ o.buf_p ∷ o.impl_p ∷ o.self ∷ ys) h g
      → Returns (λ _ g'. Owns al (xs ++ ys) h g') (put_buffer (some o) g)
  unfolding put_buffer
  put_buffer_lem xs o ys can own =
      let (b', done) = sync_returns o.buffer can in
      rw done (
        Returns.bind
          (Returns.bind (free_lem al xs o.buf_p _ own) λ _ g own. free_lem al xs o.impl_p _ own)
          λ _ g own. free_lem al xs o.self ys own)

  put-Got :
      (size : ℕ) {h : Heap} (g : Heap) (o : Option BufferObject)
      → Got size [] h o g
      → Returns (λ _ g'. Owns al [] h g') (put_buffer o g)
  unfolding put_buffer
  put-Got size g none own = returns own
  put-Got size g (some o) got = put_buffer_lem [] o [] got.1 got.0

  -- `get_buffer` followed by `put_buffer` on what it returned, NULL included, returns and leaves the
  -- heap's live blocks as they were: nothing waits, nothing leaks and nothing is freed twice.
  pub get_put_buffer_keeps_heap :
      (size : ℕ) (h : Heap)
      → (o : Option BufferObject) × (h' : Heap) × (h'' : Heap) × (get_buffer size h ≡ ok (o, h'))
        × (put_buffer o h' ≡ ok (tt, h''))
        × ((q : Ptr) → al.live h'' q ≡ al.live h q)
  get_put_buffer_keeps_heap size h =
      let (o, h', done, got) = Returns.outcome (get_buffer_lem size (Owns-nil al h)) in
      let (_, h'', freed, own) = Returns.outcome (put-Got size h' o got) in
      (o, h', h'', done, freed, own.exact)
