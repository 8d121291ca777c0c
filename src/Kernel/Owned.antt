-- ===== src/Kernel/Owned.antt =====
-- Which blocks a caller holds: the heap is a start heap with a list of blocks on top.
use pcm3060_kernelmodule.Prelude.{
  ℕ, ◌≡◌, refl, subst, append_assoc, length, ◌∙◌, sym, Bool, true, false, ◌||◌, List, [], ◌∷◌, ◌++◌,
  Option, none, some, arith, ◌==◌,
}
use pcm3060_kernelmodule.Kernel.Run.{ok}
use pcm3060_kernelmodule.Kernel.Alloc.{Ptr, Block, Allocator, malloc, free}
use pcm3060_kernelmodule.Kernel.Returns.{Returns, returns}

abbrev pub member : Ptr → List Ptr → Bool
member q [] = false
member q (p ∷ ps) = q == p || member q ps

module _ (al : Allocator) where
  open al use {Heap, live, kmalloc, kfree}

  -- Distinct blocks that were free at the start.
  abbrev pub Fresh : Heap → List Ptr → Type 0
  Fresh h [] = Unit
  Fresh h (p ∷ ps) = (member p ps ≡ false) × (live h p ≡ false) × Fresh h ps

  -- `g` is `h` with exactly the blocks `ps` more.
  pub record Owns (ps : List Ptr) (h g : Heap) : Type 0 where
    pub fresh : Fresh h ps
    pub exact : (q : Ptr) → live g q ≡ (member q ps || live h q)

  pub Owns-nil : (h : Heap) → Owns [] h h
  Owns-nil h = record { fresh = tt; exact = λ q. refl }

  pub Owns-kmalloc :
      {ps : List Ptr} {h g : Heap} (n : ℕ) (b : Block)
      → Owns ps h g
      → (kmalloc n g).0 ≡ some b
      → Owns (b.addr ∷ ps) h (kmalloc n g).1
  Owns-kmalloc {ps} {h} {g} n b o e = record {
    fresh = ground (arith, al.kmalloc_fresh n g b e, o.exact b.addr, o.fresh);
    exact = λ q. ground (arith, al.kmalloc_live n g b e q, o.exact q);
  }

  pub Owns-kmalloc_null :
      {ps : List Ptr} {h g : Heap} (n : ℕ)
      → Owns ps h g
      → (kmalloc n g).0 ≡ none
      → Owns ps h (kmalloc n g).1
  Owns-kmalloc_null {ps} {h} {g} n o e = record {
    fresh = o.fresh;
    exact = λ q. al.kmalloc_null n g e q ∙ o.exact q;
  }

  member-append :
      (q p : Ptr) (xs ys : List Ptr) → member q (xs ++ p ∷ ys) ≡ (q == p || member q (xs ++ ys))
  member-append q p [] ys = refl
  member-append q p (x ∷ xs) ys = ground (arith, member-append q p xs ys)

  Fresh-remove :
      (h : Heap) (p : Ptr) (xs ys : List Ptr) → Fresh h (xs ++ p ∷ ys) → Fresh h (xs ++ ys)
  Fresh-remove h p [] ys f = f.2
  Fresh-remove h p (x ∷ xs) ys f =
      ground (arith, member-append x p xs ys, Fresh-remove h p xs ys f.2)

  Fresh-not_member :
      (h : Heap) (p : Ptr) (xs ys : List Ptr)
      → Fresh h (xs ++ p ∷ ys)
      → (member p (xs ++ ys) ≡ false) × (live h p ≡ false)
  Fresh-not_member h p [] ys f = (f.0, f.1)
  Fresh-not_member h p (x ∷ xs) ys f =
      ground (arith, member-append x p xs ys, Fresh-not_member h p xs ys f.2)

  -- A block that is held is live.
  pub Owns-live :
      {h g : Heap} (xs : List Ptr) (p : Ptr) (ys : List Ptr)
      → Owns (xs ++ p ∷ ys) h g
      → live g p ≡ true
  Owns-live xs p ys o = ground (arith, o.exact p, member-append p p xs ys)

  -- A block that is held can be freed, once.
  pub Owns-free :
      {h g : Heap} (xs : List Ptr) (p : Ptr) (ys : List Ptr)
      → Owns (xs ++ p ∷ ys) h g
      → (g' : Heap) × (free al p g ≡ ok (tt, g')) × Owns (xs ++ ys) h g'
  unfolding free
  Owns-free {h} {g} xs p ys o =
      let held : live g p ≡ true = ground (arith, o.exact p, member-append p p xs ys) in
      let (g', done, now) = al.kfree_live p g held in
      let out = Fresh-not_member h p xs ys o.fresh in
      (
        g',
        rw (done, free),
        record {
          fresh = Fresh-remove h p xs ys o.fresh;
          exact = λ q. ground (arith, now q, o.exact q, member-append q p xs ys, out);
        },
      )

  abbrev pub Malloced : ℕ → List Ptr → Heap → Option Block → Heap → Type 0
  Malloced n ps h none g = Owns ps h g
  Malloced n ps h (some b) g = Owns (b.addr ∷ ps) h g × (length b.bytes ≡ n)

  pub malloc_lem :
      {ps : List Ptr} {h g : Heap} (n : ℕ) → Owns ps h g → Returns (Malloced n ps h) (malloc al n g)
  unfolding malloc
  malloc_lem {ps} {h} {g} n o = go (kmalloc n g).0 refl
    where
      go : (b : Option Block) → (kmalloc n g).0 ≡ b → Returns (Malloced n ps h) (malloc al n g)
      go none e = returns (rw e (Owns-kmalloc_null n o e))
      go (some b) e = returns (rw e (Owns-kmalloc n b o e, al.kmalloc_size n g b e))

  pub free_lem :
      {h g : Heap} (xs : List Ptr) (p : Ptr) (ys : List Ptr)
      → Owns (xs ++ p ∷ ys) h g
      → Returns (λ _ g'. Owns (xs ++ ys) h g') (free al p g)
  free_lem xs p ys o =
      let (g', done, own) = Owns-free xs p ys o in subst (Returns _) (sym done) (returns own)

  pub Owns-regroup :
      {h g : Heap} (xs ys zs : List Ptr) → Owns (xs ++ (ys ++ zs)) h g → Owns (xs ++ ys ++ zs) h g
  Owns-regroup {h} {g} xs ys zs o = subst (λ ps. Owns ps h g) (sym (append_assoc xs ys zs)) o

  pub Owns-flatten :
      {h g : Heap} (xs ys zs : List Ptr) → Owns (xs ++ ys ++ zs) h g → Owns (xs ++ (ys ++ zs)) h g
  Owns-flatten {h} {g} xs ys zs o = subst (λ ps. Owns ps h g) (append_assoc xs ys zs) o
