-- ===== src/DualBuffer/Lifetime.antt =====
-- get_dualbuffer and put_dualbuffer. The cleanup after a failed second get_buffer frees one block of
-- the first buffer's three.
use pcm3060_kernelmodule.Prelude.{
  ℕ, ◌≡◌, ◌⊎◌, inl, inr, refl, List, [], ◌∷◌, ◌++◌, Option, none, some,
}
use pcm3060_kernelmodule.Kernel.Run.{ok}
use pcm3060_kernelmodule.Kernel.Alloc.{Ptr, Allocator, Struct, Mem, malloc, free, pure, ◌>>=◌, ◌>>◌}
use pcm3060_kernelmodule.Kernel.Owned.{Owns, Owns-nil, malloc_lem, free_lem}
use pcm3060_kernelmodule.Kernel.Returns
use pcm3060_kernelmodule.Kernel.Returns.{Returns, returns}
use pcm3060_kernelmodule.Buffer.Lifetime.{
  BufferObject, blocks, CanSync, get_buffer, put_buffer, get_buffer_lem, put_buffer_lem,
}

-- `_dualbuffer_impl_t *`, as allocated: no reader.
pub record ImplObject : Type 0 where
  pub self : Ptr
  pub read_buf : BufferObject
  pub write_buf : BufferObject

-- `dualbuffer_t *`
pub record DualObject : Type 0 where
  pub self : Ptr
  pub impl : ImplObject

module _ (al : Allocator) where
  open al use {Heap, sizeof}

  -- `_get_dualbuffer_impl`. The pointer that the cleanup passes to kfree is the `buffer_t` itself.
  unfoldable pub get_dualbuffer_impl : ℕ → Mem al (Option ImplObject)
  get_dualbuffer_impl size = do
    newbuf ← malloc al (sizeof Struct.dualbuffer_impl)
    elim newbuf [
      | none ↦ pure none
      | some self ↦ do
        read_buf ← get_buffer al size
        elim read_buf [
          | none ↦ (do free al self.addr; pure none)
          | some r ↦ do
            write_buf ← get_buffer al size
            elim write_buf [
              | none ↦ (do free al r.self; free al self.addr; pure none)
              | some w ↦ pure (some (record { self = self.addr; read_buf = r; write_buf = w }))
            ]
        ]
    ]

  unfoldable pub get_dualbuffer : ℕ → Mem al (Option DualObject)
  unfolding get_dualbuffer_impl
  get_dualbuffer size = do
    newbuf ← malloc al (sizeof Struct.dualbuffer)
    elim newbuf [
      | none ↦ pure none
      | some self ↦ do
        impl ← get_dualbuffer_impl size
        elim impl [
          | none ↦ (do free al self.addr; pure none)
          | some i ↦ pure (some (record { self = self.addr; impl = i }))
        ]
    ]

  -- `_put_buffer_impl`
  unfoldable pub put_dualbuffer_impl : ImplObject → Mem al (Unit {0})
  put_dualbuffer_impl o = do
    put_buffer al (some o.read_buf)
    put_buffer al (some o.write_buf)
    free al o.self

  unfoldable pub put_dualbuffer : Option DualObject → Mem al (Unit {0})
  unfolding put_dualbuffer_impl
  put_dualbuffer none = pure tt
  put_dualbuffer (some o) = do put_dualbuffer_impl o.impl; free al o.self

  -- What a call that fails leaves behind: nothing, or two blocks of a read buffer.
  abbrev pub Lost : List Ptr → Heap → Heap → Type 0
  Lost ps h g =
      (lost : List Ptr) × ((lost ≡ []) ⊎ ((p : Ptr) × (q : Ptr) × (lost ≡ p ∷ q ∷ [])))
      × Owns al (lost ++ ps) h g

  abbrev pub impl_blocks : ImplObject → List Ptr
  impl_blocks o = blocks al o.write_buf ++ (blocks al o.read_buf ++ (o.self ∷ []))

  abbrev CanSyncBoth : ImplObject → Type 0
  CanSyncBoth o = CanSync o.read_buf.buffer × CanSync o.write_buf.buffer

  abbrev GotImpl : List Ptr → Heap → Option ImplObject → Heap → Type 0
  GotImpl ps h none g = Lost ps h g
  GotImpl ps h (some o) g = Owns al (impl_blocks o ++ ps) h g × CanSyncBoth o

  abbrev pub Got : List Ptr → Heap → Option DualObject → Heap → Type 0
  Got ps h none g = Lost ps h g
  Got ps h (some o) g = Owns al (impl_blocks o.impl ++ (o.self ∷ ps)) h g × CanSyncBoth o.impl

  get_impl_lem :
      {ps : List Ptr} {h g : Heap} (size : ℕ)
      → Owns al ps h g
      → Returns (GotImpl ps h) (get_dualbuffer_impl size g)
  unfolding get_dualbuffer_impl
  get_impl_lem {ps} size own = Returns.bind (malloc_lem al _ own) (elim [
    | none ↦ λ g o. returns ([], inl refl, o)
    | some self ↦ λ g o. Returns.bind (get_buffer_lem al size o.0) (elim [
      | none ↦ λ g o. Returns.bind (free_lem al [] self.addr _ o) λ _ g o. returns ([], inl refl, o)
      | some r ↦ λ g rgot. Returns.bind (get_buffer_lem al size rgot.0) (elim [
        | none ↦ λ g o. Returns.bind (free_lem al (r.buf_p ∷ r.impl_p ∷ []) r.self _ o) λ _ g o.
            Returns.bind (free_lem al (r.buf_p ∷ r.impl_p ∷ []) self.addr _ o)
              λ _ g o. returns (r.buf_p ∷ r.impl_p ∷ [], inr (r.buf_p, r.impl_p, refl), o)
        | some w ↦ λ g wgot. returns (wgot.0, (rgot.1, wgot.1))
      ])
    ])
  ])

  -- `get_dualbuffer` always returns: with an object whose blocks are all fresh, or with NULL.
  pub get_dualbuffer_lem :
      {ps : List Ptr} {h g : Heap} (size : ℕ)
      → Owns al ps h g
      → Returns (Got ps h) (get_dualbuffer size g)
  unfolding get_dualbuffer
  get_dualbuffer_lem {ps} size own = Returns.bind (malloc_lem al _ own) (elim [
    | none ↦ λ g o. returns ([], inl refl, o)
    | some self ↦ λ g o. Returns.bind (get_impl_lem size o.0) (elim [
      | none ↦ λ g (lost, which, o).
          Returns.bind (free_lem al lost self.addr ps o) λ _ g o. returns (lost, which, o)
      | some i ↦ λ g igot. returns (igot.0, igot.1)
    ])
  ])

  -- `put_dualbuffer` frees the blocks of its object, if no writer is active in its buffers.
  pub put_dualbuffer_lem :
      {h g : Heap} (o : DualObject) (ys : List Ptr)
      → CanSync o.impl.read_buf.buffer × CanSync o.impl.write_buf.buffer
      → Owns al (impl_blocks o.impl ++ (o.self ∷ ys)) h g
      → Returns (λ _ g'. Owns al ys h g') (put_dualbuffer (some o) g)
  unfolding put_dualbuffer
  put_dualbuffer_lem o ys can own =
      let i = o.impl in
      Returns.bind
        (Returns.bind
          (put_buffer_lem al (blocks al i.write_buf) i.read_buf (i.self ∷ o.self ∷ ys) can.0 own)
          λ _ g own.
            Returns.bind (put_buffer_lem al [] i.write_buf (i.self ∷ o.self ∷ ys) can.1 own)
              λ _ g own. free_lem al [] i.self (o.self ∷ ys) own)
        λ _ g own. free_lem al [] o.self ys own

  -- What is left after a get and a put: what a failure lost, and nothing after a success.
  abbrev pub Remains : Heap → Option DualObject → Heap → Type 0
  Remains h none g = Lost [] h g
  Remains h (some o) g = Owns al [] h g

  put-Got :
      (h g : Heap) (o : Option DualObject)
      → Got [] h o g
      → Returns (λ _ g'. Remains h o g') (put_dualbuffer o g)
  unfolding put_dualbuffer
  put-Got h g none lost = returns lost
  put-Got h g (some o) got = put_dualbuffer_lem o [] got.1 got.0

  -- `get_dualbuffer` followed by `put_dualbuffer` on what it returned always returns. If the first
  -- call handed out an object, the heap's live blocks are as before; if it failed, they are as
  -- before or two fresh blocks stay behind for good.
  pub get_put_dualbuffer :
      (size : ℕ) (h : Heap)
      → (o : Option DualObject) × (h' : Heap) × (h'' : Heap) × (get_dualbuffer size h ≡ ok (o, h'))
        × (put_dualbuffer o h' ≡ ok (tt, h''))
        × Remains h o h''
  get_put_dualbuffer size h =
      let (o, h', done, got) = Returns.outcome (get_dualbuffer_lem size (Owns-nil al h)) in
      let (_, h'', freed, left) = Returns.outcome (put-Got h h' o got) in
      (o, h', h'', done, freed, left)
