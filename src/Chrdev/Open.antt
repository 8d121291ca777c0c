-- ===== src/Chrdev/Open.antt =====
-- chrdev_pcm3060_open and chrdev_pcm3060_release on a device that is in use.
use pcm3060_kernelmodule.Prelude.{ℕ, ◌+◌, ◌≡◌, refl, Bool, true, Option, none, some}
use pcm3060_kernelmodule.Kernel.Run.{ok}
use pcm3060_kernelmodule.Kernel.Alloc.{Ptr, Struct, Allocator, malloc}
use pcm3060_kernelmodule.Kernel.Platform.{Platform, neg32}
use pcm3060_kernelmodule.Pcm.{
  Pcm3060Config, Pcm3060, access, configure_pcm3060, get_pcm3060, put_pcm3060,
}
use pcm3060_kernelmodule.Pcm.References.{IsHeld, get_put_returns}
use pcm3060_kernelmodule.Chrdev.{
  Chrdev, Channel, left_channel, right_channel, File, set_pcm3060, chrdev_pcm3060_open,
  chrdev_pcm3060_release,
}

module _ (al : Allocator) where
  -- What `_configure_pcm3060` comes to on a device that is configured, or for which there is no memory.
  abbrev init_outcome : Option Ptr → al.Heap → ℕ × al.Heap
  init_outcome config h = elim config [
    | some k ↦ (0, h)
    | none ↦ (neg32 1, (al.kmalloc (al.sizeof Struct.pcm3060_config) h).1)
  ]

  configure_keeps :
      (pl : Platform) (cfg : Pcm3060Config) (d : Pcm3060) (config : Option Ptr) (h : al.Heap)
      → (config ≡ none → (al.kmalloc (al.sizeof Struct.pcm3060_config) h).0 ≡ none)
      → let d' = record d { config = config } in
        let r = init_outcome config h in
        configure_pcm3060 al pl (some cfg) d' h ≡ ok ((r.0, d'), r.1)
  unfolding configure_pcm3060 malloc
  configure_keeps pl cfg d none h no_memory = rw (no_memory refl) refl
  configure_keeps pl cfg d (some old) h no_memory = refl

  open_of :
      (pl : Platform) (c : Channel) (file : File) (s : Chrdev) {p : Ptr} (d : Pcm3060) (h : al.Heap)
      → get_pcm3060 al pl s.device h ≡ ok ((some p, d), h)
      → al.live h p ≡ true
      → (d.config ≡ none → (al.kmalloc (al.sizeof Struct.pcm3060_config) h).0 ≡ none)
      → let r = init_outcome d.config h in
        chrdev_pcm3060_open al pl true c (some file) s h
        ≡ ok ((r.0, some (record file { private_data = some c }), set_pcm3060 c (some p) d s), r.1)
  unfolding chrdev_pcm3060_open access
  open_of pl left_channel file s d h e l k =
      rw (e, l, configure_keeps pl s.pcm3060_cfg d d.config h k) refl
  open_of pl right_channel file s d h e l k =
      rw (e, l, configure_keeps pl s.pcm3060_cfg d d.config h k) refl

  release_of :
      (ran : Bool) (c : Channel) (file : File) (s : Chrdev) (p : Ptr) (d : Pcm3060) {e : Pcm3060}
      (h : al.Heap)
      → put_pcm3060 al ran (some p) d h ≡ ok (e, h)
      → chrdev_pcm3060_release al ran
          (record file { private_data = some c })
          (set_pcm3060 c (some p) d s)
          h
        ≡ ok ((0, set_pcm3060 c (some p) e s), h)
  unfolding chrdev_pcm3060_release
  release_of ran left_channel file s p d h e = rw e refl
  release_of ran right_channel file s p d h e = rw e refl

  -- `chrdev_pcm3060_open` of either channel's file, where the device is held, and where it is
  -- configured or there is no memory for its configuration: it returns 0 in the first case and -1 in
  -- the second. In both it binds the file to its channel and to the same device object, which gets one
  -- reference more and keeps its configuration, whatever rate was set since; the reference of the open
  -- that failed stays, for which the kernel calls no release. `chrdev_pcm3060_release` of a file of the
  -- channel returns 0 and takes just one reference back. Neither touches the heap, but for the
  -- allocation that fails.
  pub open_release_counts :
      (pl : Platform) (ran : Bool) (c : Channel) (file : File) (s : Chrdev) {p : Ptr} (h : al.Heap)
      → IsHeld s.device p
      → al.live h p ≡ true
      → (s.device.config ≡ none → (al.kmalloc (al.sizeof Struct.pcm3060_config) h).0 ≡ none)
      → let d = record s.device { refcount = s.device.refcount + 1 } in
        let file' = record file { private_data = some c } in
        let s' = set_pcm3060 c (some p) d s in
        let r = init_outcome s.device.config h in
        (chrdev_pcm3060_open al pl true c (some file) s h ≡ ok ((r.0, some file', s'), r.1))
        × (chrdev_pcm3060_release al ran file' s' r.1
            ≡ ok ((0, set_pcm3060 c (some p) s.device s), r.1))
  open_release_counts pl ran c file s {p} h held is_live memory =
      let d = record s.device { refcount = s.device.refcount + 1 } in
      let r = init_outcome s.device.config h in
      let (got, _, _) = get_put_returns al pl ran h held in
      let (_, put, _) = get_put_returns al pl ran r.1 held in
      (open_of pl c file s d h got is_live memory, release_of ran c file s p d r.1 put)
