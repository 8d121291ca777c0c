-- ===== src/Pipe/Lifetime.antt =====
-- get_pipe_buffer and put_pipe_buffer: a pipe object is two blocks and a buffer's three.
use pcm3060_kernelmodule.Prelude.{ℕ, ◌<◌, ◌^◌, ◌≡◌, refl, List, [], ◌∷◌, ◌++◌, Option, none, some}
use pcm3060_kernelmodule.Prelude.{Bool, true, false}
use pcm3060_kernelmodule.Kernel.Completion.{wait_for_completion_killable}
use pcm3060_kernelmodule.Kernel.Run.{blocked, ok}
use pcm3060_kernelmodule.Kernel.Alloc.{
  Ptr, Allocator, Struct, Mem, malloc, free, lift, pure, ◌>>=◌, ◌>>◌,
}
use pcm3060_kernelmodule.Kernel.Owned.{Owns, Owns-nil, malloc_lem, free_lem}
use pcm3060_kernelmodule.Kernel.Completion.{init_completion, complete_all}
use pcm3060_kernelmodule.Buffer.{Buffer}
use pcm3060_kernelmodule.Prelude.{arith, ◌==◌}
use pcm3060_kernelmodule.Kernel.Returns
use pcm3060_kernelmodule.Kernel.Returns.{Returns, returns}
use pcm3060_kernelmodule.Buffer.Lifetime.{
  BufferObject, blocks, CanSync, get_buffer, put_buffer, get_buffer_lem, put_buffer_lem,
}
use pcm3060_kernelmodule.Pipe.{PipeBuffer, init_pipe, wait_for_read_complete}
use pcm3060_kernelmodule.Pipe.Transfer.{IsValid, init_pipe-IsValid}

-- A `pipe_buffer_t *` with what is behind it. The buffer's state stands in `pipe` alone.
pub record PipeObject : Type 0 where
  pub self : Ptr
  pub impl_p : Ptr
  pub buf : BufferObject
  pub pipe : PipeBuffer

-- The pipe's `buf` pointer: the blocks of the object, with the state that the pipe has by now.
abbrev pub current : BufferObject → PipeBuffer → Option BufferObject
current o p = elim p.buf [ none ↦ none | some b ↦ some (record o { buffer = b }) ]

module _ (al : Allocator) where
  open al use {Heap, sizeof}

  -- `_get_pipe_buffer_impl`
  unfoldable pub get_pipe_buffer_impl : ℕ → Mem al (Option (Ptr × BufferObject × PipeBuffer))
  get_pipe_buffer_impl size = do
    newbuf ← malloc al (sizeof Struct.pipe_buffer_impl)
    elim newbuf [
      | none ↦ pure none
      | some impl ↦ do
        buf ← get_buffer al size
        elim buf [
          | none ↦ (do free al impl.addr; pure none)
          | some b ↦ pure (some (impl.addr, b, init_pipe b.buffer))
        ]
    ]

  unfoldable pub get_pipe_buffer : ℕ → Mem al (Option PipeObject)
  unfolding get_pipe_buffer_impl
  get_pipe_buffer size = do
    newbuf ← malloc al (sizeof Struct.pipe_buffer)
    elim newbuf [
      | none ↦ pure none
      | some self ↦ do
        impl ← get_pipe_buffer_impl size
        elim impl [
          | none ↦ (do free al self.addr; pure none)
          | some (impl_p, b, p) ↦
              pure (some (record { self = self.addr; impl_p = impl_p; buf = b; pipe = p }))
        ]
    ]

  -- `_put_pipe_buffer_impl`: it lets the waiting readers go, waits for the active ones, and frees.
  unfoldable pub put_pipe_buffer_impl : Bool → PipeObject → Mem al (Unit {0})
  put_pipe_buffer_impl killed o = do
    p ← lift (
        wait_for_read_complete killed
          (record o.pipe { write_completion = complete_all o.pipe.write_completion }))
    put_buffer al (current o.buf p)
    free al o.impl_p

  unfoldable pub put_pipe_buffer : Bool → Option PipeObject → Mem al (Unit {0})
  unfolding put_pipe_buffer_impl
  put_pipe_buffer killed none = pure tt
  put_pipe_buffer killed (some o) = do put_pipe_buffer_impl killed o; free al o.self

  -- What is left of a failure, and of a success: the blocks, and a pipe that is empty if small.
  abbrev pub Got : ℕ → List Ptr → Heap → Option PipeObject → Heap → Type 0
  Got size ps h none g = Owns al ps h g
  Got size ps h (some o) g =
      Owns al (blocks al o.buf ++ (o.impl_p ∷ o.self ∷ ps)) h g
      × CanSync o.buf.buffer
      × (o.pipe ≡ init_pipe o.buf.buffer)
      × (size < 2 ^ 31 → IsValid (init_pipe o.buf.buffer))

  abbrev GotImpl : ℕ → List Ptr → Heap → Option (Ptr × BufferObject × PipeBuffer) → Heap → Type 0
  GotImpl size ps h none g = Owns al ps h g
  GotImpl size ps h (some (impl_p, b, p)) g =
      Owns al (blocks al b ++ (impl_p ∷ ps)) h g
      × CanSync b.buffer
      × (p ≡ init_pipe b.buffer)
      × (size < 2 ^ 31 → IsValid (init_pipe b.buffer))

  get_impl_lem :
      {ps : List Ptr} {h g : Heap} (size : ℕ)
      → Owns al ps h g
      → Returns (GotImpl size ps h) (get_pipe_buffer_impl size g)
  unfolding get_pipe_buffer_impl
  get_impl_lem size own = Returns.bind (malloc_lem al _ own) (elim [
    | none ↦ λ g o. returns o
    | some impl ↦ λ g o. Returns.bind (get_buffer_lem al size o.0) (elim [
      | none ↦ λ g o. Returns.bind (free_lem al [] impl.addr _ o) λ _ g o. returns o
      | some b ↦ λ g got. returns (got.0, got.1, refl, (λ small. init_pipe-IsValid (got.2 small)))
    ])
  ])

  -- `get_pipe_buffer` always returns: with an empty pipe whose blocks are fresh, or with NULL and
  -- everything freed.
  pub get_pipe_buffer_lem :
      {ps : List Ptr} {h g : Heap} (size : ℕ)
      → Owns al ps h g
      → Returns (Got size ps h) (get_pipe_buffer size g)
  unfolding get_pipe_buffer
  get_pipe_buffer_lem size own = Returns.bind (malloc_lem al _ own) (elim [
    | none ↦ λ g o. returns o
    | some self ↦ λ g o. Returns.bind (get_impl_lem size o.0) (elim [
      | none ↦ λ g o. Returns.bind (free_lem al [] self.addr _ o) λ _ g o. returns o
      | some (impl_p, b, p) ↦ λ g got. returns (got.0, got.1, got.2, got.3)
    ])
  ])

  -- `put_pipe_buffer` frees the blocks of a pipe that nobody used.
  pub put_pipe_buffer_lem :
      {h g : Heap} (killed : Bool) (xs : List Ptr) (o : PipeObject) (ys : List Ptr)
      → CanSync o.buf.buffer
      → o.pipe ≡ init_pipe o.buf.buffer
      → Owns al (xs ++ (blocks al o.buf ++ (o.impl_p ∷ o.self ∷ ys))) h g
      → Returns (λ _ g'. Owns al (xs ++ ys) h g') (put_pipe_buffer killed (some o) g)
  unfolding put_pipe_buffer init_pipe wait_for_read_complete
  put_pipe_buffer_lem killed xs o ys can new own = rw new (
      Returns.bind
        (Returns.bind (put_buffer_lem al xs o.buf (o.impl_p ∷ o.self ∷ ys) can own)
          λ _ g own. free_lem al xs o.impl_p (o.self ∷ ys) own)
        λ _ g own. free_lem al xs o.self ys own)

  put-Got :
      (killed : Bool) (size : ℕ) (h g : Heap) (o : Option PipeObject)
      → Got size [] h o g
      → Returns (λ _ g'. Owns al [] h g') (put_pipe_buffer killed o g)
  unfolding put_pipe_buffer
  put-Got killed size h g none own = returns own
  put-Got killed size h g (some o) got = put_pipe_buffer_lem killed [] o [] got.1 got.2 got.0

  -- `get_pipe_buffer` followed by `put_pipe_buffer` on what it returned, NULL included, returns and
  -- leaves the heap's live blocks as they were: nothing waits, leaks or is freed twice.
  pub get_put_pipe_keeps_heap :
      (killed : Bool) (size : ℕ) (h : Heap)
      → (o : Option PipeObject) × (h' : Heap) × (h'' : Heap) × (get_pipe_buffer size h ≡ ok (o, h'))
        × (put_pipe_buffer killed o h' ≡ ok (tt, h''))
        × ((q : Ptr) → al.live h'' q ≡ al.live h q)
  get_put_pipe_keeps_heap killed size h =
      let (o, h', done, got) = Returns.outcome (get_pipe_buffer_lem size (Owns-nil al h)) in
      let (_, h'', freed, own) = Returns.outcome (put-Got killed size h h' o got) in
      (o, h', h'', done, freed, own.exact)

  -- `put_pipe_buffer` of any pipe with active readers, however many, whose `read_completion` is not
  -- completed, and whose buffer has no active writer or a free mutex: it waits for the readers. But
  -- where a fatal signal comes, it goes on, returns, and frees the object and the storage that the
  -- readers still have a pointer to.
  pub killed_put_frees_under_reader :
      {h g : Heap} (o : PipeObject) (b : Buffer)
      → 0 < o.pipe.n_active_readers
      → o.pipe.read_completion ≡ init_completion
      → o.pipe.buf ≡ some b
      → CanSync b
      → Owns al (blocks al o.buf ++ (o.impl_p ∷ o.self ∷ [])) h g
      → (put_pipe_buffer false (some o) g ≡ blocked)
        × Returns (λ _ g'. Owns al [] h g') (put_pipe_buffer true (some o) g)
  unfolding put_pipe_buffer wait_for_read_complete wait_for_completion_killable
  killed_put_frees_under_reader {h} {g} o b readers waiting there can own =
      let active : (o.pipe.n_active_readers == 0) ≡ false = ground (arith, readers) in
      (
        rw (active, waiting) refl,
        rw (active, waiting, there)
            (Returns.bind
              (Returns.bind
                (put_buffer_lem al [] (record o.buf { buffer = b }) (o.impl_p ∷ o.self ∷ []) can
                  own)
                λ _ g own. free_lem al [] o.impl_p (o.self ∷ []) own)
              λ _ g own. free_lem al [] o.self [] own),
      )
