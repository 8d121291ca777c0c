-- ===== src/DualBuffer/Readers/Swaps.antt =====
-- Readers that swap the two buffers while others read and write.
use pcm3060_kernelmodule.Prelude.{
  ℕ, zero, suc, ◌+◌, ◌-◌, ◌^◌, ◌≤◌, ◌<◌, ◌≡◌, refl, sym, ap, ◌∙◌, Bool, true, false, not, List, [],
  ◌∷◌, ◌++◌, length, length-append, arith, ◌==◌, ℕ_discrete,
}
use pcm3060_kernelmodule.Prelude.Words.{add32, sub32, add32-eq, sub32-eq}
use pcm3060_kernelmodule.DualBuffer.Readers.{
  at_rest, Pointers, Pc, idle, loading, resetting, storing_write, storing_read, syncing, starting,
  reading, ending, writing, Move, register, load, reset, store_write, store_read, sync, start,
  finish, leave, begin_write, end_write, counted, swapping, total, Reach, here, next, idlers,
}
use pcm3060_kernelmodule.DualBuffer.Readers.Invariant.{
  AllSay, total-append, AllSay-split, total-le, Inv, swap_step, other_step, first_step,
}

not-not : (b : Bool) → b ≡ not (not b)
not-not true = refl
not-not false = refl

Move-Inv :
    (xs ys : List Pc) {m m' : Pointers} {p p' : Pc}
    → Move m p m' p'
    → Inv m (xs ++ p ∷ ys)
    → length (xs ++ p ∷ ys) + 1 < 2 ^ 32
    → Inv m' (xs ++ p' ∷ ys)
Move-Inv xs ys {m} register inv small =
    let le = total-le (xs ++ idle ∷ ys) in
    let n = m.n_active_readers in
    let up : add32 n 1 ≡ n + 1 = add32-eq n 1 (omega (arith, inv.counts, le, small)) in
    elim (ℕ_discrete n 0) [
      | yes none_yet ↦
          let one : add32 n 1 ≡ 1 = omega (arith, up, none_yet) in
          rw one (first_step xs ys inv none_yet)
      | no some_there ↦
          let test : (n + 1 == 1) ≡ false = ground arith in
          rw (up, test) (other_step xs ys (n + 1) idle starting inv refl refl (omega arith))
    ]
Move-Inv xs ys {m} load inv small =
    let (_, said, _) = AllSay-split m.read_buf m.write_buf xs loading ys inv.says in
    swap_step xs ys m loading (resetting m.write_buf) inv refl refl refl (refl, said)
      (λ e. absurd (omega (arith, e)))
Move-Inv xs ys {m} (reset {tmp}) inv small =
    let (_, said, _) = AllSay-split m.read_buf m.write_buf xs (resetting tmp) ys inv.says in
    swap_step xs ys m (resetting tmp) (storing_write tmp) inv refl refl refl said
      (λ e. absurd (omega (arith, e)))
Move-Inv xs ys {m} (store_write {tmp}) inv small =
    let (_, said, _) = AllSay-split m.read_buf m.write_buf xs (storing_write tmp) ys inv.says in
    let other : tmp ≡ not m.read_buf = said.0 ∙ not-not m.write_buf ∙ ap not (sym said.1) in
    swap_step xs ys (record m { write_buf = m.read_buf }) (storing_write tmp) (storing_read tmp) inv
      refl refl refl (refl, other) (λ e. absurd (omega (arith, e)))
Move-Inv xs ys {m} (store_read {tmp}) inv small =
    let (_, said, _) = AllSay-split m.read_buf m.write_buf xs (storing_read tmp) ys inv.says in
    swap_step xs ys (record m { read_buf = tmp }) (storing_read tmp) syncing inv refl refl refl
      (said.1 ∙ ap not (sym said.0)) (λ e. absurd (omega (arith, e)))
Move-Inv xs ys {m} sync inv small =
    let (_, said, _) = AllSay-split m.read_buf m.write_buf xs syncing ys inv.says in
    swap_step xs ys m syncing starting inv refl refl refl tt (λ _. said)
Move-Inv xs ys {m} start inv small =
    other_step xs ys m.n_active_readers starting (reading m.read_buf) inv refl refl refl
Move-Inv xs ys {m} (finish {r}) inv small =
    other_step xs ys m.n_active_readers (reading r) ending inv refl refl refl
Move-Inv xs ys {m} leave inv small =
    let le = total-le (xs ++ ending ∷ ys) in
    let n = m.n_active_readers in
    let c = total-append counted xs (ending ∷ ys) in
    let down : sub32 n 1 ≡ n - 1 =
      sub32-eq n 1 (omega (arith, inv.counts, c)) (omega (arith, inv.counts, le, small)) in
    rw down (other_step xs ys (n - 1) ending idle inv refl refl (omega (arith, inv.counts, c)))
Move-Inv xs ys {m} begin_write inv small =
    other_step xs ys m.n_active_readers idle (writing m.write_buf) inv refl refl refl
Move-Inv xs ys {m} (end_write {w}) inv small =
    other_step xs ys m.n_active_readers (writing w) idle inv refl refl refl

total-idlers :
    (r w : Bool) (k : ℕ)
    → (total counted (idlers k) ≡ 0)
      × (total swapping (idlers k) ≡ 0)
      × AllSay r w (idlers k)
      × (length (idlers k) ≡ k)
total-idlers r w zero = (refl, refl, tt, refl)
total-idlers r w (suc k) =
    let (a, b, c, d) = total-idlers r w k in (omega arith, omega arith, (tt, c), ap suc d)

Reach-Inv :
    {m0 : Pointers} {k : ℕ} {m : Pointers} {pcs : List Pc}
    → Reach m0 (idlers k) m pcs
    → m0.n_active_readers ≡ 0
    → m0.read_buf ≡ not m0.write_buf
    → k + 1 < 2 ^ 32
    → (length pcs ≡ k) × Inv m pcs
Reach-Inv {m0} {k = k} here none_yet apart small =
    let (a, b, c, d) = total-idlers m0.read_buf m0.write_buf k in
    (
      d,
      record {
        counts = omega (arith, none_yet, a);
        one = omega (arith, b);
        says = c;
        apart = λ _. apart;
      },
    )
Reach-Inv (next {p} {p'} xs ys r mv) none_yet apart small =
    let (len, inv) = Reach-Inv r none_yet apart small in
    let same : length (xs ++ p' ∷ ys) ≡ length (xs ++ p ∷ ys) =
      omega (arith, length-append xs (p ∷ ys), length-append xs (p' ∷ ys)) in
    (same ∙ len, Move-Inv xs ys mv inv (omega (arith, len)))

-- However many readers and writers interleave, from two different buffers and no reader on: the count
-- is the number of readers between their start and their end, at most one of them swaps the buffers at
-- a time, and whenever none does the two pointers have different buffers, so that no buffer is lost
-- and none is both read and written by those that start then.
pub swaps_keep_both :
    {m0 m : Pointers} (k : ℕ) {pcs : List Pc}
    → Reach m0 (idlers k) m pcs
    → m0.n_active_readers ≡ 0
    → m0.read_buf ≡ not m0.write_buf
    → k + 1 < 2 ^ 32
    → (m.n_active_readers ≡ total counted pcs)
      × (total swapping pcs ≤ 1)
      × (total swapping pcs ≡ 0 → m.read_buf ≡ not m.write_buf)
swaps_keep_both k r none_yet apart small =
    let (_, inv) = Reach-Inv {k = k} r none_yet apart small in (inv.counts, inv.one, inv.apart)

-- But a second reader does not wait for the swap of the first one: it can load the read buffer before,
-- and still copy from it while a writer, which comes after the swap, copies into it.
pub late_reader_overlaps_writer :
    (r : Bool)
    → (m : Pointers) × Reach (at_rest r) (idlers 3) m (starting ∷ reading r ∷ writing r ∷ [])
unfolding add32
late_reader_overlaps_writer r = (
  _,
  (let s1 = next [] (idle ∷ idle ∷ []) here register in
      let s2 = next (loading ∷ []) (idle ∷ []) s1 register in
      let s3 = next (loading ∷ []) (idle ∷ []) s2 start in
      let s4 = next [] (reading r ∷ idle ∷ []) s3 load in
      let s5 = next [] (reading r ∷ idle ∷ []) s4 reset in
      let s6 = next [] (reading r ∷ idle ∷ []) s5 store_write in
      let s7 = next [] (reading r ∷ idle ∷ []) s6 store_read in
      let s8 = next [] (reading r ∷ idle ∷ []) s7 sync in
      next (starting ∷ reading r ∷ []) [] s8 begin_write),
)
