-- ===== src/Pcm/Overlap/Calls.antt =====
-- Overlapping calls of get_pcm3060: which object they hand out, and that none of them waits.
use pcm3060_kernelmodule.Prelude.{
  ℕ, ◌+◌, ◌^◌, ◌<◌, ◌≡◌, ◌⊎◌, refl, sym, ap, subst, inl, inr, true, Option, none, some, arith, ltb,
  ◌&&◌, Bool-cases,
}
use pcm3060_kernelmodule.Prelude.Words.{add32}
use pcm3060_kernelmodule.Kernel.Alloc.{Ptr, Allocator}
use pcm3060_kernelmodule.Kernel.Platform.{Platform}
use pcm3060_kernelmodule.Devicetree.{dt_find_pcm3060_device}
use pcm3060_kernelmodule.Pcm.Overlap.{
  Pc, idle, locking, allocating, storing, finding, clearing_left, clearing_right, clearing_config,
  setting_init, setting_get, unlocking, reading, freeing, failing, returned, after_count, Shared,
  Move, take, store, store_null, alloc, update, begun, Reach, start, later,
}
use pcm3060_kernelmodule.Pcm.Overlap.Invariant.{IsUnused, creates, Inv, Fits}
use pcm3060_kernelmodule.Pcm.Overlap.Steps.{idle_or_busy, step_busy, step_begin, start_lem}

-- The steps that a caller takes at most until it returns.
abbrev pub steps_left : Pc → ℕ
steps_left idle = 13
steps_left locking = 12
steps_left allocating = 11
steps_left (storing o) = 10
steps_left (finding p) = 9
steps_left clearing_left = 8
steps_left (freeing p) = 8
steps_left clearing_right = 7
steps_left clearing_config = 6
steps_left setting_init = 5
steps_left setting_get = 4
steps_left unlocking = 3
steps_left failing = 3
steps_left reading = 1
steps_left (returned o) = 0

module _ {al : Allocator} where
  -- In fewer than 2 ^ 31 calls the count does not turn negative.
  Reach-Inv :
      {pl : Platform} {m0 : Shared al} {k : ℕ} {m : Shared al} {pc : ℕ → Pc}
      → Reach al pl m0 k m pc
      → IsUnused m0
      → k < 2 ^ 31
      → Inv k m pc
  Reach-Inv start u bound = start_lem u
  Reach-Inv {pl} (later {k} {m} {m'} {pc} {p} r i mv) u bound =
      let inv = Reach-Inv r u (omega arith) in
      elim (idle_or_busy (pc i)) [
        | inl e ↦
            let one : begun (pc i) ≡ 1 = ap (λ q. begun q) e in
            subst (λ b. Inv (k + b) m' (update pc i p)) (sym one)
              (step_begin i (subst (λ q. Move al pl m q m' p) e mv) (omega (arith, one)) inv)
        | inr (busy, none_begun) ↦
            let same : k ≡ k + begun (pc i) = omega (arith, none_begun) in
            subst (λ b. Inv b m' (update pc i p)) same (step_busy i mv busy inv)
      ]

  -- However the calls of `get_pcm3060` of any number of callers overlap, from a state without an
  -- object and without references on and for fewer than 2 ^ 31 calls: all those that return a pointer
  -- return the same one, which is the one that is stored, and no two of them create an object at once.
  pub callers_agree :
      {pl : Platform} {k : ℕ} {m0 m : Shared al} {pc : ℕ → Pc}
      → Reach al pl m0 k m pc
      → IsUnused m0
      → k < 2 ^ 31
      → ((i : ℕ) (p : Ptr) → pc i ≡ returned (some p) → m.device.pcm3060_ext ≡ some p)
        × ((i j : ℕ) → creates (pc i) ≡ true → creates (pc j) ≡ true → i ≡ j)
  callers_agree {m} r u bound =
      let inv = Reach-Inv r u bound in (λ i p e. subst (Fits m) e (inv.fits i), inv.one)

  after_count-lt : (m : Shared al) (n : ℕ) → steps_left (after_count n) < 13
  after_count-lt m n = elim (Bool-cases (ltb 1 n && ltb n (2 ^ 31))) [
    | inl e ↦ rw e (omega arith)
    | inr e ↦ rw e (omega arith)
  ]

  Move-steps :
      {pl : Platform} {m m' : Shared al} {p p' : Pc}
      → Move al pl m p m' p'
      → steps_left p' < steps_left p
  Move-steps {m} take = after_count-lt m (add32 m.device.refcount 1)
  Move-steps mv = omega arith

  can_go_on :
      (pl : Platform) (m : Shared al) (p : Pc)
      → Fits m p
      → ((o : Option Ptr) × (p ≡ returned o))
        ⊎ ((m' : Shared al) × (p' : Pc) × Move al pl m p m' p')
  can_go_on pl m idle f = inr (_, _, take)
  can_go_on pl m locking f = inr (_, _, Move.lock f.0)
  can_go_on pl m allocating f = inr (_, _, alloc)
  can_go_on pl m (storing none) f = inr (_, _, store_null)
  can_go_on pl m (storing (some b)) f = inr (_, _, store)
  can_go_on pl m (finding p) f = found (dt_find_pcm3060_device pl.bus) refl
    where
      found :
          (o : Option ℕ)
          → dt_find_pcm3060_device pl.bus ≡ o
          → ((r : Option Ptr) × (finding p ≡ returned r))
            ⊎ ((m' : Shared al) × (p' : Pc) × Move al pl m (finding p) m' p')
      found none e = inr (_, _, Move.miss e)
      found (some dev) e = inr (_, _, Move.find dev e)
  can_go_on pl m (freeing p) f =
      let (g, freed, _) = al.kfree_live p m.heap f.1 in inr (_, _, Move.release freed)
  can_go_on pl m clearing_left f = inr (_, _, Move.clear_left)
  can_go_on pl m clearing_right f = inr (_, _, Move.clear_right)
  can_go_on pl m clearing_config f = inr (_, _, Move.clear_config)
  can_go_on pl m setting_init f = inr (_, _, Move.set_init)
  can_go_on pl m setting_get f = inr (_, _, Move.set_get)
  can_go_on pl m unlocking f = inr (_, _, Move.unlock f)
  can_go_on pl m reading f = inr (_, _, Move.read)
  can_go_on pl m failing f = inr (_, _, Move.unlock_failed f)
  can_go_on pl m (returned o) f = inl (o, refl)

  -- No caller ever waits for another: from a state without an object and without references on, and
  -- for fewer than 2 ^ 31 calls, a caller that has not returned can take its next step, also the one
  -- that takes the mutex and the one that frees, and each of its steps lowers the number of those that
  -- are left, which is at most 13.
  pub never_waits :
      {pl : Platform} {k : ℕ} {m0 m : Shared al} {pc : ℕ → Pc}
      → Reach al pl m0 k m pc
      → IsUnused m0
      → k < 2 ^ 31
      → (i : ℕ)
      → (((o : Option Ptr) × (pc i ≡ returned o))
          ⊎ ((m' : Shared al) × (p : Pc) × Move al pl m (pc i) m' p))
        × ((m' : Shared al) (p : Pc) → Move al pl m (pc i) m' p → steps_left p < steps_left (pc i))
  never_waits {pl} {m} {pc} r u bound i =
      (can_go_on pl m (pc i) ((Reach-Inv r u bound).fits i), λ m' p mv. Move-steps mv)
