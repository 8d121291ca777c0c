-- ===== src/DuplexPipe/Lifetime.antt =====
-- get_duplex_pipe_buffer and put_duplex_pipe_buffer: fourteen blocks are allocated, twelve are freed.
use pcm3060_kernelmodule.Prelude.{Bool, ℕ, ◌/◌, ◌≡◌, refl, List, [], ◌∷◌, ◌++◌, Option, none, some}
use pcm3060_kernelmodule.Kernel.Run.{ok}
use pcm3060_kernelmodule.Kernel.Alloc.{Ptr, Allocator, Struct, Mem, malloc, free, pure, ◌>>=◌, ◌>>◌}
use pcm3060_kernelmodule.Kernel.Owned.{
  Owns, Owns-nil, Owns-regroup, Owns-flatten, malloc_lem, free_lem,
}
use pcm3060_kernelmodule.Kernel.Returns
use pcm3060_kernelmodule.Kernel.Returns.{Returns, returns}
use pcm3060_kernelmodule.Buffer.Lifetime.{blocks, CanSync}
use pcm3060_kernelmodule.Pipe.{init_pipe}
use pcm3060_kernelmodule.Pipe.Lifetime.{
  PipeObject, get_pipe_buffer, put_pipe_buffer, get_pipe_buffer_lem, put_pipe_buffer_lem,
}
use pcm3060_kernelmodule.DuplexPipe.{
  DuplexPipeEnd, PipePtr, pipe_a, pipe_b, left_pipe_end, right_pipe_end,
}

-- `_duplex_pipe_buffer_impl_t *`, and a `duplex_pipe_end_t *`
pub record PipeImpl : Type 0 where
  pub self : Ptr
  pub buffer_a : PipeObject
  pub buffer_b : PipeObject

pub record PipeEndObject : Type 0 where
  pub self : Ptr
  pub pipe_end : DuplexPipeEnd

-- `duplex_pipe_buffer_t *`
pub record DuplexPipeObject : Type 0 where
  pub self : Ptr
  pub size : ℕ
  pub left_end : PipeEndObject
  pub right_end : PipeEndObject
  pub impl : PipeImpl

-- `killed` says whether a fatal signal ends the waits of `put_pipe_buffer`.
module _ (al : Allocator) (killed : Bool) where
  open al use {Heap, sizeof}

  unfoldable pub get_duplex_pipe_buffer_impl : ℕ → Mem al (Option PipeImpl)
  get_duplex_pipe_buffer_impl size = do
    newbuf ← malloc al (sizeof Struct.duplex_pipe_buffer_impl)
    elim newbuf [
      | none ↦ pure none
      | some self ↦ do
        buffer_a ← get_pipe_buffer al (size / 2)
        elim buffer_a [
          | none ↦ (do free al self.addr; pure none)
          | some a ↦ do
            buffer_b ← get_pipe_buffer al (size / 2)
            elim buffer_b [
              | none ↦ (do put_pipe_buffer al killed (some a); free al self.addr; pure none)
              | some b ↦ pure (some (record { self = self.addr; buffer_a = a; buffer_b = b }))
            ]
        ]
    ]

  unfoldable pub put_duplex_pipe_buffer_impl : PipeImpl → Mem al (Unit {0})
  put_duplex_pipe_buffer_impl o = do
    put_pipe_buffer al killed (some o.buffer_a)
    put_pipe_buffer al killed (some o.buffer_b)
    free al o.self

  unfoldable pub get_duplex_pipe_end : PipePtr → PipePtr → Mem al (Option PipeEndObject)
  get_duplex_pipe_end wr_buf rd_buf = do
    newbuf ← malloc al (sizeof Struct.duplex_pipe_end)
    elim newbuf [
      | none ↦ pure none
      | some b ↦ pure (
          some (record {
            self = b.addr;
            pipe_end = record { read_buffer = rd_buf; write_buffer = wr_buf };
          }))
    ]

  unfoldable pub put_duplex_pipe_end : PipeEndObject → Mem al (Unit {0})
  put_duplex_pipe_end e = free al e.self

  unfoldable pub get_duplex_pipe_buffer : ℕ → Mem al (Option DuplexPipeObject)
  get_duplex_pipe_buffer size = do
    newbuf ← malloc al (sizeof Struct.duplex_pipe_buffer)
    elim newbuf [
      | none ↦ pure none
      | some self ↦ do
        impl ← get_duplex_pipe_buffer_impl size
        elim impl [
          | none ↦ (do free al self.addr; pure none)
          | some impl ↦ do
            left ← get_duplex_pipe_end pipe_a pipe_b
            elim left [
              | none ↦ (do put_duplex_pipe_buffer_impl impl; free al self.addr; pure none)
              | some left ↦ do
                right ← get_duplex_pipe_end pipe_b pipe_a
                elim right [
                  | none ↦ (do
                    put_duplex_pipe_end left
                    put_duplex_pipe_buffer_impl impl
                    free al self.addr
                    pure none)
                  | some right ↦ pure (
                      some (record {
                        self = self.addr;
                        size = size;
                        left_end = left;
                        right_end = right;
                        impl = impl;
                      }))
                ]
            ]
        ]
    ]

  unfoldable pub put_duplex_pipe_buffer : Option DuplexPipeObject → Mem al (Unit {0})
  put_duplex_pipe_buffer none = pure tt
  put_duplex_pipe_buffer (some o) = do put_duplex_pipe_buffer_impl o.impl; free al o.self

  -- The blocks of a pipe, of the implementation, and those that `put_duplex_pipe_buffer` leaves.
  abbrev pipe_blocks : PipeObject → List Ptr
  pipe_blocks o = blocks al o.buf ++ (o.impl_p ∷ o.self ∷ [])

  abbrev impl_blocks : PipeImpl → List Ptr
  impl_blocks o = pipe_blocks o.buffer_b ++ (pipe_blocks o.buffer_a ++ o.self ∷ [])

  abbrev pub kept_ends : Option DuplexPipeObject → List Ptr
  kept_ends none = []
  kept_ends (some o) = o.right_end.self ∷ o.left_end.self ∷ []

  -- Pipes that nobody used yet.
  record AreNew (o : PipeImpl) : Type 0 where
    sync_a : CanSync o.buffer_a.buf.buffer
    sync_b : CanSync o.buffer_b.buf.buffer
    new_a : o.buffer_a.pipe ≡ init_pipe o.buffer_a.buf.buffer
    new_b : o.buffer_b.pipe ≡ init_pipe o.buffer_b.buf.buffer

  abbrev GotImpl : List Ptr → Heap → Option PipeImpl → Heap → Type 0
  GotImpl ps h none g = Owns al ps h g
  GotImpl ps h (some o) g = Owns al (impl_blocks o ++ ps) h g × AreNew o

  abbrev GotEnd : PipePtr → PipePtr → List Ptr → Heap → Option PipeEndObject → Heap → Type 0
  GotEnd wr rd ps h none g = Owns al ps h g
  GotEnd wr rd ps h (some e) g =
      Owns al (e.self ∷ ps) h g × (e.pipe_end ≡ record { read_buffer = rd; write_buffer = wr })

  get_impl_lem :
      {ps : List Ptr} {h g : Heap} (size : ℕ)
      → Owns al ps h g
      → Returns (GotImpl ps h) (get_duplex_pipe_buffer_impl size g)
  unfolding get_duplex_pipe_buffer_impl
  get_impl_lem {ps} size own = Returns.bind (malloc_lem al _ own) (elim [
    | none ↦ λ g o. returns o
    | some self ↦ λ g o. Returns.bind (get_pipe_buffer_lem al (size / 2) o.0) (elim [
      | none ↦ λ g o. Returns.bind (free_lem al [] self.addr _ o) λ _ g o. returns o
      | some a ↦ λ g agot. Returns.bind (get_pipe_buffer_lem al (size / 2) agot.0) (elim [
        | none ↦ λ g o.
            Returns.bind (put_pipe_buffer_lem al killed [] a (self.addr ∷ ps) agot.1 agot.2 o)
              λ _ g o. Returns.bind (free_lem al [] self.addr ps o) λ _ g o. returns o
        | some b ↦ λ g bgot.
            returns
              (bgot.0, record { sync_a = agot.1; sync_b = bgot.1; new_a = agot.2; new_b = bgot.2 })
      ])
    ])
  ])

  put_impl_lem :
      {h g : Heap} (xs : List Ptr) (o : PipeImpl) (ys : List Ptr)
      → AreNew o
      → Owns al (xs ++ (impl_blocks o ++ ys)) h g
      → Returns (λ _ g'. Owns al (xs ++ ys) h g') (put_duplex_pipe_buffer_impl o g)
  unfolding put_duplex_pipe_buffer_impl
  put_impl_lem {h} xs o ys new own =
      let b = pipe_blocks o.buffer_b in
      Returns.bind
        (put_pipe_buffer_lem al killed (xs ++ b) o.buffer_a (o.self ∷ ys) new.sync_a new.new_a
          (Owns-regroup al xs b _ own))
        λ _ g own.
          Returns.bind
            (put_pipe_buffer_lem al killed xs o.buffer_b (o.self ∷ ys) new.sync_b new.new_b
              (Owns-flatten al xs b _ own))
            λ _ g own. free_lem al xs o.self ys own

  get_end_lem :
      {ps : List Ptr} {h g : Heap} (wr rd : PipePtr)
      → Owns al ps h g
      → Returns (GotEnd wr rd ps h) (get_duplex_pipe_end wr rd g)
  unfolding get_duplex_pipe_end
  get_end_lem wr rd own =
      Returns.bind (malloc_lem al _ own)
        (elim [ none ↦ λ g o. returns o | some b ↦ λ g o. returns (o.0, refl) ])

  -- Nothing on failure, or an object of fourteen blocks with new pipes and crossed ends.
  abbrev GotPipes : List Ptr → Heap → Option DuplexPipeObject → Heap → Type 0
  GotPipes ps h none g = Owns al ps h g
  GotPipes ps h (some o) g =
      Owns al (o.right_end.self ∷ o.left_end.self ∷ (impl_blocks o.impl ++ (o.self ∷ ps))) h g
      × (o.left_end.pipe_end ≡ left_pipe_end)
      × (o.right_end.pipe_end ≡ right_pipe_end)
      × AreNew o.impl

  get_duplex_pipe_buffer_lem :
      {ps : List Ptr} {h g : Heap} (size : ℕ)
      → Owns al ps h g
      → Returns (GotPipes ps h) (get_duplex_pipe_buffer size g)
  unfolding get_duplex_pipe_buffer put_duplex_pipe_end
  get_duplex_pipe_buffer_lem {ps} size own = Returns.bind (malloc_lem al _ own) (elim [
    | none ↦ λ g o. returns o
    | some self ↦ λ g o. Returns.bind (get_impl_lem size o.0) (elim [
      | none ↦ λ g o. Returns.bind (free_lem al [] self.addr ps o) λ _ g o. returns o
      | some impl ↦ λ g got. Returns.bind (get_end_lem pipe_a pipe_b got.0) (elim [
        | none ↦ λ g o.
            Returns.bind (put_impl_lem [] impl (self.addr ∷ ps) got.1 o)
              λ _ g o. Returns.bind (free_lem al [] self.addr ps o) λ _ g o. returns o
        | some l ↦ λ g lgot. Returns.bind (get_end_lem pipe_b pipe_a lgot.0) (elim [
          | none ↦ λ g o. Returns.bind (free_lem al [] l.self _ o) λ _ g o.
              Returns.bind (put_impl_lem [] impl (self.addr ∷ ps) got.1 o)
                λ _ g o. Returns.bind (free_lem al [] self.addr ps o) λ _ g o. returns o
          | some r ↦ λ g rgot. returns (rgot.0, lgot.1, rgot.1, got.1)
        ])
      ])
    ])
  ])

  put_got :
      {h : Heap} (g : Heap) (o : Option DuplexPipeObject)
      → GotPipes [] h o g
      → Returns (λ _ g'. Owns al (kept_ends o) h g') (put_duplex_pipe_buffer o g)
  unfolding put_duplex_pipe_buffer
  put_got g none own = returns own
  put_got g (some o) got =
      let ends = o.right_end.self ∷ o.left_end.self ∷ [] in
      Returns.bind (put_impl_lem ends o.impl (o.self ∷ []) got.3 got.0)
        λ _ g own. free_lem al ends o.self [] own

  -- `get_duplex_pipe_buffer` followed by `put_duplex_pipe_buffer` on what it returned always returns:
  -- nothing waits and nothing is freed twice. If the first call failed, the heap's live blocks are as
  -- before; otherwise exactly the two ends stay behind.
  pub get_put_keeps_ends :
      (size : ℕ) (h : Heap)
      → (o : Option DuplexPipeObject) × (h' : Heap) × (h'' : Heap) × (get_duplex_pipe_buffer size h
          ≡ ok (o, h'))
        × (put_duplex_pipe_buffer o h' ≡ ok (tt, h''))
        × Owns al (kept_ends o) h h''
  get_put_keeps_ends size h =
      let (o, h', done, got) = Returns.outcome (get_duplex_pipe_buffer_lem size (Owns-nil al h)) in
      let (_, h'', freed, own) = Returns.outcome (put_got h' o got) in
      (o, h', h'', done, freed, own)
