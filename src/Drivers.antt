-- ===== src/Drivers.antt =====
-- src/periphery/drivers.c: the platform driver, with callbacks that a client registers. The answers of
-- the kernel and of the callbacks are parameters.
use pcm3060_kernelmodule.Prelude.{
  ℕ, zero, suc, ◌+◌, ◌≡◌, refl, sym, ap, ◌∙◌, append_assoc, length-append, inl, inr, Bool, true,
  false, ◌&&◌, Option, none, some, List, [], ◌∷◌, ◌++◌, arith, length, ◌==◌, if◌then◌else◌,
  Bool-cases,
}
use pcm3060_kernelmodule.Kernel.Run.{Run, ok, fault, ◌>>=◌}

-- A callback's name, or NULL.
abbrev pub Callback : Type 0
Callback = Option ℕ

-- `_pcm3060_driver_i`: an array is `none` where it is NULL.
pub record DriverData : Type 0 where
  pub on_probe : Option (List Callback)
  pub n_on_probe : ℕ
  pub on_remove : Option (List Callback)
  pub n_on_remove : ℕ

-- `callbacks[i]`
unfoldable pub callback_at : Option (List Callback) → ℕ → Run Callback
callback_at none i = fault
callback_at (some []) i = fault
callback_at (some (c ∷ cs)) zero = ok c
callback_at (some (c ∷ cs)) (suc i) = callback_at (some cs) i

-- The callbacks' answers: what one returns when it is called.
module _ (answer : ℕ → ℕ) where
  -- `cb != NULL && cb(dev)`
  unfoldable pub call_failed : Callback → Bool
  call_failed none = false
  call_failed (some cb) = if answer cb == 0 then false else true

  -- The loop of `probe_pcm3060_device`, from callback `i` on: the result, and the callbacks called.
  unfoldable pub probe_from : ℕ → ℕ → DriverData → Run (ℕ × List Callback)
  probe_from zero i d = ok (0, [])
  probe_from (suc left) i d = callback_at d.on_probe i >>= λ cb.
      let rest = probe_from left (i + 1) d in
      if call_failed cb then ok (1, cb ∷ []) else rest >>= λ x. ok (x.0, cb ∷ x.1)

  unfoldable pub probe_pcm3060_device : DriverData → Run (ℕ × List Callback)
  probe_pcm3060_device d = probe_from d.n_on_probe 0 d

  -- The loop of `remove_pcm3060_device`, from callback `i` on, with the result so far. `ret` starts at
  -- 0 and is changed by a bitwise and with 0 or 1.
  unfoldable pub remove_from : ℕ → ℕ → Bool → DriverData → Run (Bool × List Callback)
  remove_from zero i ret d = ok (ret, [])
  remove_from (suc left) i ret d = callback_at d.on_remove i >>= λ cb.
      remove_from left (i + 1) (ret && call_failed cb) d >>= λ x. ok (x.0, cb ∷ x.1)

  unfoldable pub remove_pcm3060_device : DriverData → Run (Bool × List Callback)
  remove_pcm3060_device d = remove_from d.n_on_remove 0 false d

-- `register_driver_pcm3060_plain`: the answer of platform_driver_register.
abbrev pub register_driver_pcm3060_plain : ℕ → DriverData → Run (ℕ × DriverData)
register_driver_pcm3060_plain code d = ok (code, d)

-- `register_driver_pcm3060`: the answers are those of kmalloc, an array or NULL, and of
-- platform_driver_register. With a NULL array even the first store is a fault.
unfoldable pub register_driver_pcm3060 :
    Bool → ℕ → Option (List Callback) → DriverData → Run (ℕ × DriverData)
register_driver_pcm3060 allocated code none d = register_driver_pcm3060_plain code d
register_driver_pcm3060 true code (some callbacks) d =
    register_driver_pcm3060_plain code
      (record d { n_on_probe = length callbacks; on_probe = some callbacks })
register_driver_pcm3060 false code (some []) d =
    register_driver_pcm3060_plain code (record d { n_on_probe = 0; on_probe = none })
register_driver_pcm3060 false code (some (c ∷ cs)) d = fault

-- `unregister_driver_pcm3060`
unfoldable pub unregister_driver_pcm3060 :
    Bool → Option (List Callback) → DriverData → Run DriverData
unregister_driver_pcm3060 allocated none d = ok d
unregister_driver_pcm3060 true (some callbacks) d =
    ok (record d { n_on_remove = length callbacks; on_remove = some callbacks })
unregister_driver_pcm3060 false (some []) d = ok (record d { n_on_remove = 0; on_remove = none })
unregister_driver_pcm3060 false (some (c ∷ cs)) d = fault

-- `unregister_driver_pcm3060_plain`
unfoldable pub unregister_driver_pcm3060_plain : Bool → DriverData → Run DriverData
unfolding unregister_driver_pcm3060
unregister_driver_pcm3060_plain allocated d = unregister_driver_pcm3060 allocated none d

callback_at-append :
    (pre suf : List Callback) (c : Callback)
    → callback_at (some (pre ++ c ∷ suf)) (length pre) ≡ ok c
unfolding callback_at
callback_at-append [] suf c = refl
callback_at-append (p ∷ pre) suf c = callback_at-append pre suf c

-- Index `i` of the array stands before the callbacks `suf`.
record At (array : Option (List Callback)) (i : ℕ) (suf : List Callback) : Type 0 where
  pre : List Callback
  whole : array ≡ some (pre ++ suf)
  here : i ≡ length pre

At-found :
    {array : Option (List Callback)} {i : ℕ} {c : Callback} {suf : List Callback}
    → At array i (c ∷ suf)
    → (callback_at array i ≡ ok c) × At array (i + 1) suf
At-found {array} {i} {c} {suf} a = (
  rw (a.whole, a.here) (callback_at-append a.pre suf c),
  record {
    pre = a.pre ++ c ∷ [];
    whole = a.whole ∙ ap some (sym (append_assoc a.pre (c ∷ []) suf));
    here = omega (arith, a.here, length-append a.pre (c ∷ []));
  },
)

-- The callbacks up to the first that fails, and whether one does.
module _ (answer : ℕ → ℕ) where
  abbrev pub until_failure : List Callback → List Callback
  until_failure [] = []
  until_failure (c ∷ cs) =
      let rest = until_failure cs in if call_failed answer c then c ∷ [] else c ∷ rest

  abbrev pub any_fails : List Callback → Bool
  any_fails [] = false
  any_fails (c ∷ cs) = let rest = any_fails cs in if call_failed answer c then true else rest

  probe_from-until :
      (i : ℕ) (suf : List Callback) (d : DriverData)
      → At d.on_probe i suf
      → probe_from answer (length suf) i d ≡ ok (if any_fails suf then 1 else 0, until_failure suf)
  unfolding probe_from
  probe_from-until i [] d a = refl
  probe_from-until i (c ∷ suf) d a =
      let (found, next) = At-found a in
      let rest = probe_from-until (i + 1) suf d next in
      elim (Bool-cases (call_failed answer c)) [
        | inl fails ↦ rw (found, fails) refl
        | inr passes ↦ rw (found, passes, rest) refl
      ]

  remove_from-all :
      (i : ℕ) (suf : List Callback) (d : DriverData)
      → At d.on_remove i suf
      → remove_from answer (length suf) i false d ≡ ok (false, suf)
  unfolding remove_from
  remove_from-all i [] d a = refl
  remove_from-all i (c ∷ suf) d a =
      let (found, next) = At-found a in rw (found, remove_from-all (i + 1) suf d next) refl

  -- A driver that is registered with an array of callbacks, where the array could be copied: the probe
  -- of a device calls the callbacks in order up to the first that fails, NULL ones passed over as a
  -- success, and returns 1 if one fails and 0 if not.
  pub probe_stops_at_failure :
      (code : ℕ) (cs : List Callback) (d : DriverData)
      → (d' : DriverData) × (register_driver_pcm3060 true code (some cs) d ≡ ok (code, d'))
        × (probe_pcm3060_device answer d' ≡ ok (if any_fails cs then 1 else 0, until_failure cs))
  unfolding register_driver_pcm3060 probe_pcm3060_device
  probe_stops_at_failure code cs d =
      let d' = record d { n_on_probe = length cs; on_probe = some cs } in
      (d', refl, probe_from-until 0 cs d' (record { pre = []; whole = refl; here = refl }))

  -- Where the array of callbacks could be copied, `unregister_driver_pcm3060` stores it, and the
  -- removal of the device then calls every one of them, and returns 0 whatever they return.
  pub remove_hides_failures :
      (cs : List Callback) (d : DriverData)
      → (d' : DriverData) × (unregister_driver_pcm3060 true (some cs) d ≡ ok d')
        × (remove_pcm3060_device answer d' ≡ ok (false, cs))
  unfolding unregister_driver_pcm3060 remove_pcm3060_device
  remove_hides_failures cs d =
      let d' = record d { n_on_remove = length cs; on_remove = some cs } in
      (d', refl, remove_from-all 0 cs d' (record { pre = []; whole = refl; here = refl }))
