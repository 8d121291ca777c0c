-- ===== src/Pcm/Errors.antt =====
-- What the failures of get_pcm3060 and _configure_pcm3060 leave behind.
use pcm3060_kernelmodule.Prelude.{◌≡◌, refl, ◌∙◌, false, none, some, [], ◌∷◌, arith}
use pcm3060_kernelmodule.Prelude.Words.{add32}
use pcm3060_kernelmodule.Kernel.Run.{ok, fault}
use pcm3060_kernelmodule.Kernel.Alloc.{Ptr, Block, Allocator, Struct, malloc, free}
use pcm3060_kernelmodule.Kernel.Owned.{Owns, Owns-nil, Owns-kmalloc, Owns-free}
use pcm3060_kernelmodule.Kernel.Platform.{neg32, Platform}
use pcm3060_kernelmodule.Kernel.Returns
use pcm3060_kernelmodule.DuplexRing.Lifetime.{
  get_duplex_ring_buffer, put_duplex_ring_buffer, get_duplex_ring_buffer_lem,
}
use pcm3060_kernelmodule.Devicetree.{dt_find_pcm3060_device}
use pcm3060_kernelmodule.Pcm.{
  Pcm3060Config, Pcm3060, access, access_buffer, configure_pcm3060, get_channel_buffer_end,
  create_pcm3060, get_pcm3060,
}

-- No object yet.
pub record IsClosed (s : Pcm3060) : Type 0 where
  pub no_refs : s.refcount ≡ 0
  pub unlocked : s.mutex ≡ false

module _ (al : Allocator) where
  open al use {Heap, live, kmalloc, sizeof}

  -- The first `get_pcm3060` where the device is missing, but memory is not: it returns NULL, and the
  -- second one returns the block that the first one freed, through which the file's `init` is then
  -- called.
  pub failed_get_hands_out_freed :
      (pl : Platform) (s : Pcm3060) (h : Heap) (b : Block)
      → IsClosed s
      → dt_find_pcm3060_device pl.bus ≡ none
      → (kmalloc (sizeof Struct.pcm3060) h).0 ≡ some b
      → (s' : Pcm3060) × (s'' : Pcm3060) × (h' : Heap) × (get_pcm3060 al pl s h
          ≡ ok ((none, s'), h'))
        × (get_pcm3060 al pl s' h' ≡ ok ((some b.addr, s''), h'))
        × (access al (some b.addr) h' ≡ fault)
  unfolding get_pcm3060 create_pcm3060 malloc add32 access
  failed_get_hands_out_freed pl s h b v missing got =
      let own = Owns-kmalloc al (sizeof Struct.pcm3060) b (Owns-nil al h) got in
      let (h', freed, back) = Owns-free al [] b.addr [] own in
      let s' = record s { refcount = 1; pcm3060_ext = some b.addr; pdev = none; mutex = false } in
      let one : add32 s.refcount 1 ≡ 1 = omega (arith, v) in
      let gone : live h' b.addr ≡ false =
        back.exact b.addr ∙ al.kmalloc_fresh (sizeof Struct.pcm3060) h b got in
      (
        s',
        record s' { refcount = 2 },
        h',
        rw (one, v.unlocked, got, missing, freed) (rw one refl),
        refl,
        rw gone refl,
      )

  -- `_configure_pcm3060` where the memory for the configuration is there, but not for the left
  -- channel's buffer: it returns -1, and when it is called again it returns 0, as if the device were
  -- configured. The channels' buffers are missing then, and asking for the left one's end is a fault.
  pub failed_buffer_then_success :
      (pl : Platform) (s : Pcm3060) (cfg : Pcm3060Config) (h h1 : Heap) (c : Block)
      → s.config ≡ none
      → (kmalloc (sizeof Struct.pcm3060_config) h).0 ≡ some c
      → get_duplex_ring_buffer al cfg.buf_size (kmalloc (sizeof Struct.pcm3060_config) h).1
        ≡ ok (none, h1)
      → (s' : Pcm3060) × (h' : Heap) × (configure_pcm3060 al pl (some cfg) s h
          ≡ ok ((neg32 1, s'), h'))
        × (configure_pcm3060 al pl (some cfg) s' h' ≡ ok ((0, s'), h'))
        × (get_channel_buffer_end al 0 s' h' ≡ fault)
  unfolding configure_pcm3060 get_channel_buffer_end access_buffer malloc put_duplex_ring_buffer
  failed_buffer_then_success pl s cfg h h1 c new got refused =
      let own = Owns-kmalloc al (sizeof Struct.pcm3060_config) c (Owns-nil al h) got in
      let (h', freed) = frees c.addr refused own in
      (
        record s { config = some c.addr; left_chan_buffer = none },
        h',
        rw (new, got, refused, freed) refl,
        refl,
        refl,
      )
    where
      frees :
          {g : Heap} (p : Ptr)
          → get_duplex_ring_buffer al cfg.buf_size g ≡ ok (none, h1)
          → Owns al (p ∷ []) h g
          → (h' : Heap) × (free al p h1 ≡ ok (tt, h'))
      frees {g} p e own =
          let rest = Returns.at_result (get_duplex_ring_buffer_lem al cfg.buf_size own) e in
          let (h', freed, gone) = Owns-free al [] p [] rest in (h', freed)
