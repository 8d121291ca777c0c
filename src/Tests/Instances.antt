-- ===== src/Tests/Instances.antt =====
-- A user memory that is copied as far as it reaches, and an allocator over a list of live blocks.
use pcm3060_kernelmodule.Kernel.Chardevs.{Chardevs}
use pcm3060_kernelmodule.Prelude.{
  ℕ, suc, ◌+◌, ◌-◌, ◌≤◌, ◌<◌, ◌≡◌, refl, sym, ◌∙◌, ap, true, false, Option, none, some, List, [],
  ◌∷◌, ◌++◌, arith, length, take, drop, replicate, length-append, length-take, length-drop,
  length-replicate, take-append, take-take, take-all, drop-all, drop-append, dec_le, leb,
  Bool-cases, inl, inr, ◌==◌, if◌then◌else◌,
}
use pcm3060_kernelmodule.Kernel.SpiBus.{SpiController}
use pcm3060_kernelmodule.Prelude.{◌^◌, ◌≢◌, ◌&&◌}
use pcm3060_kernelmodule.Kernel.User.{UserCopy}
use pcm3060_kernelmodule.Kernel.Alloc.{Ptr, Block, Allocator}
use pcm3060_kernelmodule.Kernel.Owned.{member}

unfoldable pub from_bytes : List ℕ → ℕ → List ℕ
from_bytes u n = take n u ++ replicate (n - length u) 0

pub length-from_bytes : (u : List ℕ) (n : ℕ) → length (from_bytes u n) ≡ n
unfolding from_bytes
length-from_bytes u n = omega (
  arith,
  length-append (take n u) (replicate (n - length u) 0),
  length-take n u,
  length-replicate {A = ℕ} (n - length u) 0,
)

pub take-from_bytes :
    (u : List ℕ) (n k : ℕ) → k ≤ n → k ≤ length u → take k (from_bytes u n) ≡ take k u
unfolding from_bytes
take-from_bytes u n k h le =
    take-append k (take n u) (replicate (n - length u) 0) (omega (arith, length-take n u))
    ∙ take-take k n u h

unfoldable pub to_bytes : List ℕ → List ℕ → List ℕ
to_bytes u bs = take (length u) bs ++ drop (length bs) u

pub length-to_bytes : (u bs : List ℕ) → length (to_bytes u bs) ≡ length u
unfolding to_bytes
length-to_bytes u bs = omega (
  arith,
  length-append (take (length u) bs) (drop (length bs) u),
  length-take (length u) bs,
  length-drop (length bs) u,
)

pub take-to_bytes :
    (u bs : List ℕ) (k : ℕ) → k ≤ length u → k ≤ length bs → take k (to_bytes u bs) ≡ take k bs
unfolding to_bytes
take-to_bytes u bs k h le =
    take-append k (take (length u) bs) (drop (length bs) u)
      (omega (arith, length-take (length u) bs))
    ∙ take-take k (length u) bs h

pub drop-to_bytes : (u bs : List ℕ) → drop (length bs) (to_bytes u bs) ≡ drop (length bs) u
drop-to_bytes u bs = elim (dec_le (length bs) (length u)) [
  | yes h ↦ inside h
  | no h ↦
      drop-all (length bs) (to_bytes u bs) (omega (arith, length-to_bytes u bs))
      ∙ sym (drop-all (length bs) u (omega arith))
]
  where
    inside : length bs ≤ length u → drop (length bs) (to_bytes u bs) ≡ drop (length bs) u
    inside h =
        unfold to_bytes in
        (ap (λ t. drop (length bs) (t ++ drop (length bs) u)) (take-all (length u) bs h)
          ∙ drop-append (length bs) bs (drop (length bs) u) (omega arith)
          ∙ ap (λ t. t ++ drop (length bs) u) (drop-all (length bs) bs (omega arith)))

abbrev pub plain_copy : UserCopy
plain_copy = record {
  from_user = λ u n. (from_bytes u n, n - length u);
  from_length = length-from_bytes;
  from_left = λ u n. omega arith;
  from_copied = λ u n. take-from_bytes u n (n - (n - length u)) (omega arith) (omega arith);
  to_user = λ u bs. (to_bytes u bs, length bs - length u);
  to_length = length-to_bytes;
  to_left = λ u bs. omega arith;
  to_copied =
      λ u bs. take-to_bytes u bs (length bs - (length bs - length u)) (omega arith) (omega arith);
  to_rest = drop-to_bytes;
}

-- Allocate above every live address.
unfoldable pub total : List Ptr → ℕ
total [] = 0
total (p ∷ ps) = p + total ps

member-total : (q : Ptr) (ps : List Ptr) → total ps < q → member q ps ≡ false
unfolding total
member-total q [] h = refl
member-total q (p ∷ ps) h = ground (arith, member-total q ps)

unfoldable pub remove : Ptr → List Ptr → List Ptr
remove p [] = []
remove p (q ∷ qs) = let rest = remove p qs in if q == p then rest else q ∷ rest

member-remove :
    (p q : Ptr) (ps : List Ptr) → member q (remove p ps) ≡ (if q == p then false else member q ps)
unfolding remove
member-remove p q [] = ground arith
member-remove p q (r ∷ ps) = ground (arith, member-remove p q ps)

unfoldable pub release : Ptr → List Ptr → Option (List Ptr)
release p ps = if member p ps then some (remove p ps) else none

pub release-dead : (p : Ptr) (ps : List Ptr) → member p ps ≡ false → release p ps ≡ none
unfolding release
release-dead p ps e = rw e

pub release-live :
    (p : Ptr) (ps : List Ptr)
    → member p ps ≡ true
    → (qs : List Ptr) × (release p ps ≡ some qs)
      × ((q : Ptr) → member q qs ≡ (if q == p then false else member q ps))
unfolding release
release-live p ps e = (remove p ps, rw e, λ q. member-remove p q ps)

abbrev pub take_block : ℕ → List Ptr → Block
unfolding total
take_block n h = record { addr = suc (total h); bytes = replicate n 0 }

pub take_block-some :
    (n : ℕ) (h : List Ptr)
    → some (take_block n h) ≡ none
    → (q : Ptr) → member q (suc (total h) ∷ h) ≡ member q h
take_block-some n h e q = cc

pub take_block-fresh :
    (n : ℕ) (h : List Ptr) (b : Block) → some (take_block n h) ≡ some b → member b.addr h ≡ false
unfolding total
take_block-fresh n h b e = ground (arith, member-total (suc (total h)) h)

pub take_block-size :
    (n : ℕ) (h : List Ptr) (b : Block) → some (take_block n h) ≡ some b → length b.bytes ≡ n
unfolding total
take_block-size n h b e = ground (arith, length-replicate {A = ℕ} n 0)

pub take_block-live :
    (n : ℕ) (h : List Ptr) (b : Block)
    → some (take_block n h) ≡ some b
    → (q : Ptr) → member q (suc (total h) ∷ h) ≡ (if q == b.addr then true else member q h)
unfolding total
take_block-live n h b e q = ground arith

abbrev pub list_allocator : Allocator
list_allocator = record {
  sizeof = λ s. 16;
  Heap = List Ptr;
  live = λ h q. member q h;
  kmalloc = λ n h. (some (take_block n h), suc (total h) ∷ h);
  kfree = release;
  kmalloc_null = take_block-some;
  kmalloc_fresh = take_block-fresh;
  kmalloc_size = take_block-size;
  kmalloc_live = take_block-live;
  kfree_dead = release-dead;
  kfree_live = release-live;
}

-- The same, which hands out no more than `cap` blocks at a time.
abbrev pub take_limited : ℕ → ℕ → List Ptr → Option Block × List Ptr
take_limited cap n h =
    let b = take_block n h in if leb cap (length h) then (none, h) else (some b, b.addr ∷ h)

module _ (cap n : ℕ) (h : List Ptr) where
  pub take_limited-null :
      (take_limited cap n h).0 ≡ none → (q : Ptr) → member q (take_limited cap n h).1 ≡ member q h
  take_limited-null e q = elim (Bool-cases (leb cap (length h))) [
    | inl full ↦ rw full refl
    | inr room ↦ absurd (some-none (rw room at e))
  ]
    where
      some-none : some (take_block n h) ≡ none → ⊥
      some-none x = cc

  taken :
      (b : Block)
      → (take_limited cap n h).0 ≡ some b
      → (some (take_block n h) ≡ some b) × ((take_limited cap n h).1 ≡ (take_block n h).addr ∷ h)
  taken b e = elim (Bool-cases (leb cap (length h))) [
    | inl full ↦ absurd (none-some (rw full at e))
    | inr room ↦ (rw room at e, rw room refl)
  ]
    where
      none-some : none ≡ some b → ⊥
      none-some x = cc

  pub take_limited-fresh : (b : Block) → (take_limited cap n h).0 ≡ some b → member b.addr h ≡ false
  take_limited-fresh b e = take_block-fresh n h b (taken b e).0

  pub take_limited-size : (b : Block) → (take_limited cap n h).0 ≡ some b → length b.bytes ≡ n
  take_limited-size b e = take_block-size n h b (taken b e).0

  pub take_limited-live :
      (b : Block)
      → (take_limited cap n h).0 ≡ some b
      → (q : Ptr) → member q (take_limited cap n h).1 ≡ (if q == b.addr then true else member q h)
  unfolding take_block total
  take_limited-live b e q = rw (taken b e).1 (take_block-live n h b (taken b e).0 q)

abbrev pub limited_allocator : ℕ → Allocator
limited_allocator cap = record list_allocator {
  kmalloc = take_limited cap;
  kmalloc_null = take_limited-null cap;
  kmalloc_fresh = take_limited-fresh cap;
  kmalloc_size = take_limited-size cap;
  kmalloc_live = take_limited-live cap;
}

-- A controller that accepts every message.
abbrev pub list_controller : SpiController
list_controller = record {
  Bus = ℕ × List (List ℕ);
  pending = λ b. b.0;
  sent = λ b. b.1;
  spi_async = λ p b. (0, (suc b.0, b.1));
  spi_async_queues = λ p b e. (refl, refl);
  spi_async_refuses = λ p b ne. absurd (ne refl);
}

abbrev pub no_messages : ℕ × List (List ℕ)
no_messages = (0, [])

-- One that refuses every message, with -ESHUTDOWN.
abbrev pub shut_down : SpiController
shut_down = record {
  Bus = ℕ × List (List ℕ);
  pending = λ b. b.0;
  sent = λ b. b.1;
  spi_async = λ p b. (2 ^ 32 - 108, b);
  spi_async_queues = λ p b e. absurd (omega (arith, e));
  spi_async_refuses = λ p b ne. (refl, refl);
}

-- Classes and ranges of numbers in lists.
abbrev pub without_range : ℕ → ℕ → List (ℕ × ℕ) → List (ℕ × ℕ)
without_range major count [] = []
without_range major count (r ∷ rs) =
    let rest = without_range major count rs in if r.0 == major && r.1 == count then rs else r ∷ rest

pub release-new : (p : ℕ) (ps : List ℕ) → (qs : List ℕ) × (release p (p ∷ ps) ≡ some qs)
release-new p ps =
    let here : member p (p ∷ ps) ≡ true = ground arith in
    let (qs, e, _) = release-live p (p ∷ ps) here in (qs, e)

pub release-again : (p : ℕ) (ps qs : List ℕ) → release p ps ≡ some qs → release p qs ≡ none
release-again p ps qs e = elim (Bool-cases (member p ps)) [
  | inl there ↦
      let (rs, e', gone) = release-live p ps there in
      let same : rs ≡ qs = cc in
      let here : (p == p) ≡ true = ground arith in
      let dead : member p rs ≡ false = gone p ∙ rw here refl in
      release-dead p qs (ap (λ xs. member p xs) (sym same) ∙ dead)
  | inr missing ↦ let dead = release-dead p ps missing in absurd cc
]

pub other_range :
    (major n m : ℕ) → n ≢ m → without_range major n ((major, m) ∷ []) ≡ (major, m) ∷ []
other_range major n m ne = ground (arith, ne)

abbrev pub list_chardevs : Chardevs
list_chardevs = record {
  class_unregister = release;
  class_destroy = release;
  unregister_chrdev_region = without_range;
  unregister_new = release-new;
  destroy_dead = release-again;
  other_range_stays = other_range;
}
