-- ===== src/Pcm/Overlap/Steps.antt =====
-- Each step of each caller of get_pcm3060 keeps what holds of them.
use pcm3060_kernelmodule.Prelude.{
  ℕ, ◌+◌, ◌^◌, ◌<◌, ◌≡◌, ◌≢◌, ◌⊎◌, refl, sym, ◌∙◌, subst, inl, inr, true, false, arith, ltb, ◌&&◌,
  ◌==◌, Bool-cases, ℕ_discrete,
}
use pcm3060_kernelmodule.Prelude.Words.{add32, add32-eq}
use pcm3060_kernelmodule.Kernel.Alloc.{Allocator}
use pcm3060_kernelmodule.Kernel.Platform.{Platform}
use pcm3060_kernelmodule.Pcm.Overlap.{
  Pc, idle, locking, allocating, storing, finding, clearing_left, clearing_right, clearing_config,
  setting_init, setting_get, unlocking, reading, freeing, failing, returned, Shared, set_device,
  Move, take, update, begun,
}
use pcm3060_kernelmodule.Pcm.Overlap.Invariant.{IsUnused, creates, Inv, Fits, Kept, Move-Kept}

pub idle_or_busy : (p : Pc) → (p ≡ idle) ⊎ ((p ≢ idle) × (begun p ≡ 0))
idle_or_busy idle = inl refl
idle_or_busy locking = inr (λ e. absurd cc, refl)
idle_or_busy allocating = inr (λ e. absurd cc, refl)
idle_or_busy (storing o) = inr (λ e. absurd cc, refl)
idle_or_busy (finding p) = inr (λ e. absurd cc, refl)
idle_or_busy (freeing p) = inr (λ e. absurd cc, refl)
idle_or_busy clearing_left = inr (λ e. absurd cc, refl)
idle_or_busy clearing_right = inr (λ e. absurd cc, refl)
idle_or_busy clearing_config = inr (λ e. absurd cc, refl)
idle_or_busy setting_init = inr (λ e. absurd cc, refl)
idle_or_busy setting_get = inr (λ e. absurd cc, refl)
idle_or_busy unlocking = inr (λ e. absurd cc, refl)
idle_or_busy reading = inr (λ e. absurd cc, refl)
idle_or_busy failing = inr (λ e. absurd cc, refl)
idle_or_busy (returned o) = inr (λ e. absurd cc, refl)

module _ {al : Allocator} where
  pub step_busy :
      {pl : Platform} {k : ℕ} {m m' : Shared al} {pc : ℕ → Pc} {p : Pc} (i : ℕ)
      → Move al pl m (pc i) m' p
      → pc i ≢ idle
      → Inv k m pc
      → Inv k m' (update pc i p)
  step_busy {k} {m} {m'} {pc} {p} i mv busy inv = record {
    few = omega (arith, inv.few, kept.refs);
    quiet = λ none_yet. absurd (busy (inv.quiet (sym kept.refs ∙ none_yet) i));
    closed = λ none_yet. absurd (busy (inv.quiet (sym kept.refs ∙ none_yet) i));
    one = λ a b x y. inv.one a b (was a x) (was b y);
    fits = at;
  }
    where
      kept : Kept m m' (pc i) p
      kept = Move-Kept mv busy (inv.fits i)

      was : (a : ℕ) → creates (update pc i p a) ≡ true → creates (pc a) ≡ true
      was a = elim (Bool-cases (i == a)) [
        | inl e ↦
            let same : i ≡ a = ground arith in
            rw e (λ c. subst (λ j. creates (pc j) ≡ true) same (kept.stays c))
        | inr e ↦ rw e (λ c. c)
      ]

      alone : (j : ℕ) → (i == j) ≡ false → creates (pc i) ≡ true → creates (pc j) ≡ false
      alone j e c = elim (Bool-cases (creates (pc j))) [
        | inl d ↦ let same = inv.one i j c d in absurd (ground arith)
        | inr d ↦ d
      ]

      at : (j : ℕ) → Fits m' (update pc i p j)
      at j = elim (Bool-cases (i == j)) [
        | inl e ↦ rw e kept.own
        | inr e ↦ rw e (kept.others (pc j) (alone j e) (inv.fits j))
      ]

  module _ {k : ℕ} {m : Shared al} {pc : ℕ → Pc} (inv : Inv k m pc) where
    abbrev counted : Shared al
    counted = set_device (record m.device { refcount = m.device.refcount + 1 }) m

    -- The first call: every caller is still idle.
    step_first : (i : ℕ) → m.device.refcount ≡ 0 → Inv (k + 1) counted (update pc i locking)
    step_first i none_yet = record {
      few = omega (arith, inv.few);
      quiet = λ e. absurd (omega arith);
      closed = λ e. absurd (omega arith);
      one = λ a b x y. sym (mine a x) ∙ mine b y;
      fits = at;
    }
      where
        mine : (a : ℕ) → creates (update pc i locking a) ≡ true → i ≡ a
        mine a = elim (Bool-cases (i == a)) [
          | inl e ↦ λ c. ground arith
          | inr e ↦ rw e (λ c. absurd (cc (inv.quiet none_yet a)))
        ]

        at : (j : ℕ) → Fits counted (update pc i locking j)
        at j = elim (Bool-cases (i == j)) [
          | inl e ↦ rw e ((inv.closed none_yet).unlocked, (inv.closed none_yet).no_object)
          | inr e ↦ rw e (inv.fits j)
        ]

    -- A later call.
    step_again : (i : ℕ) → 0 < m.device.refcount → Inv (k + 1) counted (update pc i reading)
    step_again i some_refs = record {
      few = omega (arith, inv.few);
      quiet = λ e. absurd (omega arith);
      closed = λ e. absurd (omega arith);
      one = λ a b x y. inv.one a b (was a x) (was b y);
      fits = at;
    }
      where
        was : (a : ℕ) → creates (update pc i reading a) ≡ true → creates (pc a) ≡ true
        was a = elim (Bool-cases (i == a)) [ inl e ↦ rw e (λ c. absurd cc) | inr e ↦ rw e (λ c. c) ]

        at : (j : ℕ) → Fits counted (update pc i reading j)
        at j = elim (Bool-cases (i == j)) [ inl e ↦ rw e tt | inr e ↦ rw e (inv.fits j) ]

  pub step_begin :
      {pl : Platform} {k : ℕ} {m m' : Shared al} {pc : ℕ → Pc} {p : Pc} (i : ℕ)
      → Move al pl m idle m' p
      → k + 1 < 2 ^ 31
      → Inv k m pc
      → Inv (k + 1) m' (update pc i p)
  step_begin {k} {m} {pc} i take bound inv =
      let up : add32 m.device.refcount 1 ≡ m.device.refcount + 1 =
        add32-eq m.device.refcount 1 (omega (arith, inv.few)) in
      elim (ℕ_discrete m.device.refcount 0) [
        | yes none_yet ↦
            let test : (ltb 1 (m.device.refcount + 1) && ltb (m.device.refcount + 1) (2 ^ 31))
                ≡ false =
              ground arith in
            rw (up, test) (step_first inv i none_yet)
        | no some_refs ↦
            let test : (ltb 1 (m.device.refcount + 1) && ltb (m.device.refcount + 1) (2 ^ 31))
                ≡ true =
              ground (arith, inv.few) in
            rw (up, test) (step_again inv i (omega arith))
      ]

  pub start_lem : {m : Shared al} → IsUnused m → Inv 0 m (λ _. idle)
  start_lem u = record {
    few = omega (arith, u.no_refs);
    quiet = λ _ i. refl;
    closed = λ _. u;
    one = λ a b x y. absurd cc;
    fits = λ i. tt;
  }
