-- ===== src/Kernel/Alloc.antt =====
-- `kmalloc` and `kfree`, by their contract: a block that is handed out was free, a freed block was
-- handed out, and a failed allocation changes nothing.
use pcm3060_kernelmodule.Prelude.{
  ℕ, ◌≡◌, Bool, true, false, List, Option, none, some, ◌==◌, if◌then◌else◌, length,
}
use pcm3060_kernelmodule.Kernel.Run.{Run, ok, fault, blocked}

abbrev pub Ptr : Type 0
Ptr = ℕ

pub record Block : Type 0 where
  pub addr : Ptr
  pub bytes : List ℕ

-- The structures that the driver allocates.
pub data Struct : Type 0 where
  ring_buffer ring_buffer_impl duplex_ring_buffer duplex_ring_buffer_impl duplex_ring_end : Struct
  buffer buffer_impl dualbuffer dualbuffer_impl pipe_buffer pipe_buffer_impl : Struct
  duplex_pipe_buffer duplex_pipe_buffer_impl duplex_pipe_end pcm3060 pcm3060_config : Struct

pub record Allocator : Type 1 where
  pub sizeof : Struct → ℕ
  pub Heap : Type 0
  pub live : Heap → Ptr → Bool
  -- the size, to the block with its uninitialised bytes, or NULL
  pub kmalloc : ℕ → Heap → Option Block × Heap
  -- `none`: the pointer is not live, and the call is undefined
  pub kfree : Ptr → Heap → Option Heap
  pub kmalloc_null :
      (n : ℕ) (h : Heap) → (kmalloc n h).0 ≡ none → (q : Ptr) → live (kmalloc n h).1 q ≡ live h q
  pub kmalloc_fresh :
      (n : ℕ) (h : Heap) (b : Block) → (kmalloc n h).0 ≡ some b → live h b.addr ≡ false
  pub kmalloc_size : (n : ℕ) (h : Heap) (b : Block) → (kmalloc n h).0 ≡ some b → length b.bytes ≡ n
  pub kmalloc_live :
      (n : ℕ) (h : Heap) (b : Block)
      → (kmalloc n h).0 ≡ some b
      → (q : Ptr) → live (kmalloc n h).1 q ≡ (if q == b.addr then true else live h q)
  pub kfree_dead : (p : Ptr) (h : Heap) → live h p ≡ false → kfree p h ≡ none
  pub kfree_live :
      (p : Ptr) (h : Heap)
      → live h p ≡ true
      → (g : Heap) × (kfree p h ≡ some g)
        × ((q : Ptr) → live g q ≡ (if q == p then false else live h q))

module _ (al : Allocator) where
  open al use {Heap, kmalloc, kfree}

  -- A call that allocates or frees.
  abbrev pub Mem {ℓ} : Type ℓ → Type ℓ
  Mem A = Heap → Run (A × Heap)

  unfoldable pub malloc : ℕ → Mem (Option Block)
  malloc n h = ok (kmalloc n h)

  unfoldable pub free : Ptr → Mem (Unit {0})
  free p h = elim (kfree p h) [ none ↦ fault | some g ↦ ok (tt, g) ]

abbrev pub pure {ℓ κ} : {H : Type ℓ} {A : Type κ} → A → H → Run (A × H)
pure a h = ok (a, h)

-- A call that leaves the heap alone.
abbrev pub lift {ℓ κ} : {H : Type ℓ} {A : Type κ} → Run A → H → Run (A × H)
lift (ok a) h = ok (a, h)
lift fault h = fault
lift blocked h = blocked

abbrev pub and_then {ℓ κ μ} :
    {H : Type ℓ} {A : Type κ} {B : Type μ} → Run (A × H) → (A → H → Run (B × H)) → Run (B × H)
and_then (ok (a, g)) f = f a g
and_then fault f = fault
and_then blocked f = blocked

infixl 5 ◌>>=◌ ◌>>◌
abbrev pub ◌>>=◌ {ℓ κ μ} :
    {H : Type ℓ} {A : Type κ} {B : Type μ}
    → (H → Run (A × H))
    → (A → H → Run (B × H))
    → H
    → Run (B × H)
◌>>=◌ m f h = and_then (m h) f

abbrev pub ◌>>◌ {ℓ μ} :
    {H : Type ℓ} {B : Type μ} → (H → Run (Unit {0} × H)) → (H → Run (B × H)) → H → Run (B × H)
m >> k = m >>= λ _. k
