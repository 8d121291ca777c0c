-- ===== src/Pcm/References.antt =====
-- get_pcm3060 and put_pcm3060 on a device object that exists.
use pcm3060_kernelmodule.Prelude.{
  ℕ, suc, ◌+◌, ◌-◌, ◌<◌, ◌^◌, ◌≡◌, ◌≢◌, refl, sym, ap, ◌∙◌, Bool, true, false, ◌&&◌, Option, some,
  arith, ltb, ◌==◌,
}
use pcm3060_kernelmodule.Prelude.Words.{add32, sub32, add32-eq}
use pcm3060_kernelmodule.Kernel.Run.{ok, fault, blocked}
use pcm3060_kernelmodule.Kernel.Alloc.{Ptr, Allocator}
use pcm3060_kernelmodule.Kernel.Platform.{Platform}
use pcm3060_kernelmodule.Pcm.{Pcm3060, get_pcm3060, put_pcm3060}

-- The object is there, with a number of references that a signed count holds, also with one more.
pub record IsHeld (s : Pcm3060) (p : Ptr) : Type 0 where
  pub pointer : s.pcm3060_ext ≡ some p
  pub some_refs : 0 < s.refcount
  pub few_refs : s.refcount + 1 < 2 ^ 31

-- On an object that is held, `get_pcm3060` hands out the same pointer and counts one reference more,
-- and `put_pcm3060` of that pointer takes just that back; `put_pcm3060` of any other pointer changes
-- nothing. The heap stays as it is.
pub get_put_returns :
    (al : Allocator) (pl : Platform) {s : Pcm3060} {p : Ptr} (ran : Bool) (h : al.Heap)
    → IsHeld s p
    → let s' = record s { refcount = s.refcount + 1 } in
      (get_pcm3060 al pl s h ≡ ok ((some p, s'), h))
      × (put_pcm3060 al ran (some p) s' h ≡ ok (s, h))
      × ((q : Ptr) → q ≢ p → put_pcm3060 al ran (some q) s' h ≡ ok (s', h))
unfolding get_pcm3060 put_pcm3060
get_put_returns al pl {s} {p} ran h v =
    let n = s.refcount in
    let up : add32 n 1 ≡ n + 1 = add32-eq n 1 (omega (arith, v)) in
    let down : sub32 (n + 1) 1 ≡ n = unfold sub32 in (omega (arith, v)) in
    let more : (ltb 1 (n + 1) && ltb (n + 1) (2 ^ 31)) ≡ true = ground (arith, v) in
    let counted : (n + 1 == 0) ≡ false = ground arith in
    let stays : (n == 0) ≡ false = ground (arith, v) in
    let same : (p == p) ≡ true = ground arith in
    (
      rw (up, more, v.pointer) refl,
      rw (counted, v.pointer, same, down, stays) refl,
      λ q ne.
          let other : (p == q) ≡ false = ground (arith, ne) in rw (counted, v.pointer, other) refl,
    )

-- A reference that is not the last is given back; a pointer to something else does nothing.
put_counts :
    (al : Allocator) (s : Pcm3060) (p : Ptr) (ran : Bool) (h : al.Heap)
    → IsHeld s p
    → 1 < s.refcount
    → put_pcm3060 al ran (some p) s h ≡ ok (record s { refcount = s.refcount - 1 }, h)
unfolding put_pcm3060
put_counts al s p ran h v more =
    let n = s.refcount in
    let down : sub32 n 1 ≡ n - 1 = unfold sub32 in (omega (arith, v)) in
    let counted : (n == 0) ≡ false = ground (arith, v) in
    let stays : (n - 1 == 0) ≡ false = ground (arith, more) in
    let same : (p == p) ≡ true = ground arith in rw (counted, v.pointer, same, down, stays) refl

put_misses :
    (al : Allocator) (s : Pcm3060) (p q : Ptr) (ran : Bool) (h : al.Heap)
    → IsHeld s p
    → q ≢ p
    → put_pcm3060 al ran (some q) s h ≡ ok (s, h)
unfolding put_pcm3060
put_misses al s p q ran h v ne =
    let counted : (s.refcount == 0) ≡ false = ground (arith, v) in
    let other : (p == q) ≡ false = ground (arith, ne) in rw (counted, v.pointer, other) refl

-- A part of what a call returns.
same_part : {A B : Type 0} {x y : A} (f : A → B) → ok x ≡ ok y → f x ≡ f y
same_part {x = x} f e = ap (λ r. elim r [ ok z ↦ f z | fault ↦ f x | blocked ↦ f x ]) e

abbrev with_count : ℕ → Pcm3060 → Pcm3060
with_count n s = record s { refcount = n }

-- Calls in turn on one object, with the numbers of references taken and given back: any caller takes
-- one, or gives one back that is not the last, or hands in a pointer to something else.
pub data Calls (al : Allocator) (pl : Platform) (p : Ptr)
    : Pcm3060 → al.Heap → ℕ → ℕ → Pcm3060 → al.Heap → Type 0 where
  done : {s : Pcm3060} {h : al.Heap} → Calls al pl p s h 0 0 s h
  take :
      {s s' s'' : Pcm3060} {h h' h'' : al.Heap} {o : Option Ptr} {taken given : ℕ}
      → get_pcm3060 al pl s h ≡ ok ((o, s'), h')
      → Calls al pl p s' h' taken given s'' h''
      → Calls al pl p s h (suc taken) given s'' h''
  give :
      {s s' s'' : Pcm3060} {h h' h'' : al.Heap} {taken given : ℕ} (ran : Bool)
      → 1 < s.refcount
      → put_pcm3060 al ran (some p) s h ≡ ok (s', h')
      → Calls al pl p s' h' taken given s'' h''
      → Calls al pl p s h taken (suc given) s'' h''
  miss :
      {s s' s'' : Pcm3060} {h h' h'' : al.Heap} {taken given : ℕ} (ran : Bool) (q : Ptr)
      → q ≢ p
      → put_pcm3060 al ran (some q) s h ≡ ok (s', h')
      → Calls al pl p s' h' taken given s'' h''
      → Calls al pl p s h taken given s'' h''

-- However many callers take references to an object that exists and give them back, with no count
-- beyond a signed `int`: as long as nobody gives the last one back, the heap stays as it is and the
-- object changes in nothing but its count, which is the first one, plus the references taken, less
-- those given back, and never 0.
pub Calls-count :
    {al : Allocator} {pl : Platform} {p : Ptr} {s s' : Pcm3060} {h h' : al.Heap} {taken given : ℕ}
    → Calls al pl p s h taken given s' h'
    → s.pcm3060_ext ≡ some p
    → 0 < s.refcount
    → s.refcount + taken + 1 < 2 ^ 31
    → (s' ≡ record s { refcount = s'.refcount })
      × (s'.refcount + given ≡ s.refcount + taken)
      × (0 < s'.refcount)
      × (h' ≡ h)
Calls-count done e pos few = (refl, omega arith, pos, refl)
Calls-count {al} {pl} {p} {s} {s'} {h} (take got rest) e pos few =
    let held : IsHeld s p = record { pointer = e; some_refs = pos; few_refs = omega arith } in
    let known = sym got ∙ (get_put_returns al pl false h held).0 in
    let next = same_part (λ x. x.0.1) known in
    let count = ap (λ z. z.refcount) next in
    let (same, balance, left, heap) =
      Calls-count rest (ap (λ z. z.pcm3060_ext) next ∙ e) (omega (arith, count, pos, few))
        (omega (arith, count, pos, few)) in
    (
      same ∙ ap (with_count s'.refcount) next,
      omega (arith, balance, count, pos, few),
      left,
      heap ∙ same_part (λ x. x.1) known,
    )
Calls-count {al} {pl} {p} {s} {s'} {h} (give ran more put rest) e pos few =
    let held : IsHeld s p = record { pointer = e; some_refs = pos; few_refs = omega arith } in
    let known = sym put ∙ put_counts al s p ran h held more in
    let next = same_part (λ x. x.0) known in
    let count = ap (λ z. z.refcount) next in
    let (same, balance, left, heap) =
      Calls-count rest (ap (λ z. z.pcm3060_ext) next ∙ e) (omega (arith, count, pos, few))
        (omega (arith, count, pos, few)) in
    (
      same ∙ ap (with_count s'.refcount) next,
      omega (arith, balance, count, pos, few),
      left,
      heap ∙ same_part (λ x. x.1) known,
    )
Calls-count {al} {pl} {p} {s} {s'} {h} (miss ran q ne put rest) e pos few =
    let held : IsHeld s p = record { pointer = e; some_refs = pos; few_refs = omega arith } in
    let known = sym put ∙ put_misses al s p q ran h held ne in
    let next = same_part (λ x. x.0) known in
    let count = ap (λ z. z.refcount) next in
    let (same, balance, left, heap) =
      Calls-count rest (ap (λ z. z.pcm3060_ext) next ∙ e) (omega (arith, count, pos, few))
        (omega (arith, count, pos, few)) in
    (
      same ∙ ap (with_count s'.refcount) next,
      omega (arith, balance, count, pos, few),
      left,
      heap ∙ same_part (λ x. x.1) known,
    )
