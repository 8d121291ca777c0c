-- ===== src/Pcm/Overlap/Invariant.antt =====
-- What holds of the callers of get_pcm3060 wherever they stand.
use pcm3060_kernelmodule.Prelude.{
  ℕ, ◌≤◌, ◌≡◌, ◌≢◌, refl, sym, ◌∙◌, Bool, true, false, Option, none, some, arith, ◌==◌,
}
use pcm3060_kernelmodule.Kernel.Alloc.{Ptr, Block, Allocator, Struct}
use pcm3060_kernelmodule.Kernel.Platform.{Platform}
use pcm3060_kernelmodule.Pcm.Overlap.{
  Pc, idle, locking, allocating, storing, finding, clearing_left, clearing_right, clearing_config,
  setting_init, setting_get, unlocking, reading, freeing, failing, returned, Shared, Move, take,
  store, store_null, alloc,
}

-- No object and no caller yet.
pub record IsUnused {al : Allocator} (m : Shared al) : Type 0 where
  pub no_refs : m.device.refcount ≡ 0
  pub no_object : m.device.pcm3060_ext ≡ none
  pub unlocked : m.device.mutex ≡ false

-- Between the first reference and the return or the read of the pointer.
abbrev pub creates : Pc → Bool
creates idle = false
creates reading = false
creates (returned _) = false
creates _ = true

-- What the position of a caller says about the pointer, the mutex and the live blocks.
abbrev pub Says : Option Ptr → Bool → (Ptr → Bool) → Pc → Type 0
Says ext mutex live idle = Unit
Says ext mutex live locking = (mutex ≡ false) × (ext ≡ none)
Says ext mutex live allocating = (mutex ≡ true) × (ext ≡ none)
Says ext mutex live (storing none) = (mutex ≡ true) × (ext ≡ none)
Says ext mutex live (storing (some b)) = (mutex ≡ true) × (ext ≡ none) × (live b.addr ≡ true)
Says ext mutex live (finding p) = (mutex ≡ true) × (live p ≡ true)
Says ext mutex live (freeing p) = (mutex ≡ true) × (live p ≡ true)
Says ext mutex live reading = Unit
Says ext mutex live (returned none) = Unit
Says ext mutex live (returned (some p)) = ext ≡ some p
Says ext mutex live _ = mutex ≡ true

module _ {al : Allocator} where
  abbrev pub Fits : Shared al → Pc → Type 0
  Fits m p = Says m.device.pcm3060_ext m.device.mutex (al.live m.heap) p

  pub record Inv (k : ℕ) (m : Shared al) (pc : ℕ → Pc) : Type 0 where
    pub few : m.device.refcount ≤ k
    pub quiet : m.device.refcount ≡ 0 → (i : ℕ) → pc i ≡ idle
    pub closed : m.device.refcount ≡ 0 → IsUnused m
    pub one : (i j : ℕ) → creates (pc i) ≡ true → creates (pc j) ≡ true → i ≡ j
    pub fits : (i : ℕ) → Fits m (pc i)

  -- What a step after the first leaves.
  pub record Kept (m m' : Shared al) (p p' : Pc) : Type 0 where
    pub refs : m'.device.refcount ≡ m.device.refcount
    pub own : Fits m' p'
    pub others : (q : Pc) → (creates p ≡ true → creates q ≡ false) → Fits m q → Fits m' q
    pub stays : creates p' ≡ true → creates p ≡ true
    pub awake : p' ≢ idle

  -- A store that leaves an object's pointer alone is not seen by a caller that does not create.
  unseen :
      (m m' : Shared al) (q : Pc)
      → ((p : Ptr) → m.device.pcm3060_ext ≡ some p → m'.device.pcm3060_ext ≡ some p)
      → creates q ≡ false
      → Fits m q
      → Fits m' q
  unseen m m' idle e c f = tt
  unseen m m' reading e c f = tt
  unseen m m' (returned none) e c f = tt
  unseen m m' (returned (some p)) e c f = e p f
  unseen m m' locking e c f = absurd cc
  unseen m m' allocating e c f = absurd cc
  unseen m m' (storing o) e c f = absurd cc
  unseen m m' (finding p) e c f = absurd cc
  unseen m m' (freeing p) e c f = absurd cc
  unseen m m' clearing_left e c f = absurd cc
  unseen m m' clearing_right e c f = absurd cc
  unseen m m' clearing_config e c f = absurd cc
  unseen m m' setting_init e c f = absurd cc
  unseen m m' setting_get e c f = absurd cc
  unseen m m' unlocking e c f = absurd cc
  unseen m m' failing e c f = absurd cc

  allocated :
      (m : Shared al)
      → Fits m allocating
      → let x = al.kmalloc (al.sizeof Struct.pcm3060) m.heap in
        Fits (record m { heap = x.1 }) (storing x.0)
  allocated m f = let x = al.kmalloc (al.sizeof Struct.pcm3060) m.heap in stored x.0 refl
    where
      stored :
          (o : Option Block)
          → (al.kmalloc (al.sizeof Struct.pcm3060) m.heap).0 ≡ o
          → Fits (record m { heap = (al.kmalloc (al.sizeof Struct.pcm3060) m.heap).1 }) (storing o)
      stored none e = f
      stored (some b) e =
          let same : (b.addr == b.addr) ≡ true = ground arith in
          (f.0, f.1, al.kmalloc_live (al.sizeof Struct.pcm3060) m.heap b e b.addr ∙ rw same refl)

  -- The caller that creates, in a step that leaves the pointer and the count alone.
  creator_step :
      {m : Shared al} (m' : Shared al) (p p' : Pc)
      → m'.device.refcount ≡ m.device.refcount
      → m'.device.pcm3060_ext ≡ m.device.pcm3060_ext
      → Fits m' p'
      → creates p ≡ true
      → p' ≢ idle
      → Kept m m' p p'
  creator_step {m} m' p p' n e own c awake = record {
    refs = n;
    own = own;
    others = λ q alone f. unseen m m' q (λ x g. e ∙ g) (alone c) f;
    stays = λ _. c;
    awake = awake;
  }

  pub Move-Kept :
      {pl : Platform} {m m' : Shared al} {p p' : Pc}
      → Move al pl m p m' p'
      → p ≢ idle
      → Fits m p
      → Kept m m' p p'
  Move-Kept take busy f = absurd (busy refl)
  Move-Kept (Move.lock e) busy f = creator_step _ _ _ refl refl (refl, f.1) refl (λ e. absurd cc)
  Move-Kept {m} alloc busy f = creator_step _ _ _ refl refl (allocated m f) refl (λ e. absurd cc)
  Move-Kept store_null busy f = creator_step _ _ _ refl (sym f.1) f.0 refl (λ e. absurd cc)
  Move-Kept {m} {m'} (store {b}) busy f = record {
    refs = refl;
    own = (f.0, f.2);
    others = λ q alone g. unseen m m' q (λ x h. absurd cc) (alone refl) g;
    stays = λ _. refl;
    awake = λ e. absurd cc;
  }
  Move-Kept (Move.find dev e) busy f = creator_step _ _ _ refl refl f.0 refl (λ e. absurd cc)
  Move-Kept (Move.miss e) busy f = creator_step _ _ _ refl refl f refl (λ e. absurd cc)
  Move-Kept Move.clear_left busy f = creator_step _ _ _ refl refl f refl (λ e. absurd cc)
  Move-Kept Move.clear_right busy f = creator_step _ _ _ refl refl f refl (λ e. absurd cc)
  Move-Kept Move.clear_config busy f = creator_step _ _ _ refl refl f refl (λ e. absurd cc)
  Move-Kept Move.set_init busy f = creator_step _ _ _ refl refl f refl (λ e. absurd cc)
  Move-Kept Move.set_get busy f = creator_step _ _ _ refl refl f refl (λ e. absurd cc)
  Move-Kept (Move.unlock e) busy f = creator_step _ _ _ refl refl tt refl (λ e. absurd cc)
  Move-Kept {m} Move.read busy f = record {
    refs = refl;
    own = handed m.device.pcm3060_ext refl;
    others = λ q alone f. f;
    stays = λ e. absurd cc;
    awake = λ e. absurd cc;
  }
    where
      handed : (o : Option Ptr) → m.device.pcm3060_ext ≡ o → Fits m (returned o)
      handed none e = tt
      handed (some p) e = e
  Move-Kept (Move.release e) busy f = creator_step _ _ _ refl refl f.0 refl (λ e. absurd cc)
  Move-Kept (Move.unlock_failed e) busy f = creator_step _ _ _ refl refl tt refl (λ e. absurd cc)
