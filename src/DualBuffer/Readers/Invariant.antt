-- ===== src/DualBuffer/Readers/Invariant.antt =====
-- What holds of the count, the pointers and the threads, and steps that keep it.
use pcm3060_kernelmodule.Prelude.{ℕ, ◌+◌, ◌≤◌, ◌≡◌, Bool, not, List, [], ◌∷◌, ◌++◌, length, arith}
use pcm3060_kernelmodule.DualBuffer.Readers.{
  Pointers, Pc, idle, loading, resetting, storing_write, storing_read, syncing, starting, reading,
  ending, writing, counted, swapping, total,
}

-- What a thread that swaps knows of the pointers.
abbrev pub Says : Bool → Bool → Pc → Type 0
Says r w loading = r ≡ not w
Says r w (resetting tmp) = (tmp ≡ w) × (r ≡ not w)
Says r w (storing_write tmp) = (tmp ≡ w) × (r ≡ not w)
Says r w (storing_read tmp) = (w ≡ r) × (tmp ≡ not r)
Says r w syncing = r ≡ not w
Says r w _ = Unit

abbrev pub AllSay : Bool → Bool → List Pc → Type 0
AllSay r w [] = Unit
AllSay r w (p ∷ pcs) = Says r w p × AllSay r w pcs

pub total-append : (f : Pc → ℕ) (xs ys : List Pc) → total f (xs ++ ys) ≡ total f xs + total f ys
total-append f [] ys = omega arith
total-append f (x ∷ xs) ys = omega (arith, total-append f xs ys)

pub AllSay-split :
    (r w : Bool) (xs : List Pc) (p : Pc) (ys : List Pc)
    → AllSay r w (xs ++ p ∷ ys)
    → AllSay r w xs × Says r w p × AllSay r w ys
AllSay-split r w [] p ys a = (tt, a.0, a.1)
AllSay-split r w (x ∷ xs) p ys a =
    let (front, said, rest) = AllSay-split r w xs p ys a.1 in ((a.0, front), said, rest)

pub AllSay-join :
    (r w : Bool) (xs : List Pc) (p : Pc) (ys : List Pc)
    → AllSay r w xs
    → Says r w p
    → AllSay r w ys
    → AllSay r w (xs ++ p ∷ ys)
AllSay-join r w [] p ys a s b = (s, b)
AllSay-join r w (x ∷ xs) p ys a s b = (a.0, AllSay-join r w xs p ys a.1 s b)

Says-other : (r w : Bool) (p : Pc) → swapping p ≡ 0 → Says r w p
Says-other r w loading e = absurd (omega (arith, e))
Says-other r w (resetting tmp) e = absurd (omega (arith, e))
Says-other r w (storing_write tmp) e = absurd (omega (arith, e))
Says-other r w (storing_read tmp) e = absurd (omega (arith, e))
Says-other r w syncing e = absurd (omega (arith, e))
Says-other r w idle e = tt
Says-other r w starting e = tt
Says-other r w (reading x) e = tt
Says-other r w ending e = tt
Says-other r w (writing x) e = tt

-- Where nobody swaps, nobody says anything.
AllSay-others : (r w : Bool) (pcs : List Pc) → total swapping pcs ≡ 0 → AllSay r w pcs
AllSay-others r w [] e = tt
AllSay-others r w (p ∷ pcs) e =
    (Says-other r w p (omega (arith, e)), AllSay-others r w pcs (omega (arith, e)))

swapping-le-counted : (p : Pc) → (swapping p ≤ counted p) × (counted p ≤ 1)
swapping-le-counted idle = (omega arith, omega arith)
swapping-le-counted loading = (omega arith, omega arith)
swapping-le-counted (resetting tmp) = (omega arith, omega arith)
swapping-le-counted (storing_write tmp) = (omega arith, omega arith)
swapping-le-counted (storing_read tmp) = (omega arith, omega arith)
swapping-le-counted syncing = (omega arith, omega arith)
swapping-le-counted starting = (omega arith, omega arith)
swapping-le-counted (reading r) = (omega arith, omega arith)
swapping-le-counted ending = (omega arith, omega arith)
swapping-le-counted (writing w) = (omega arith, omega arith)

pub total-le :
    (pcs : List Pc) → (total swapping pcs ≤ total counted pcs) × (total counted pcs ≤ length pcs)
total-le [] = (omega arith, omega arith)
total-le (p ∷ pcs) =
    let (a, b) = swapping-le-counted p in let (c, d) = total-le pcs in (omega arith, omega arith)

pub record Inv (m : Pointers) (pcs : List Pc) : Type 0 where
  pub counts : m.n_active_readers ≡ total counted pcs
  pub one : total swapping pcs ≤ 1
  pub says : AllSay m.read_buf m.write_buf pcs
  pub apart : total swapping pcs ≡ 0 → m.read_buf ≡ not m.write_buf

module _ (xs ys : List Pc) where
  -- A step of the thread that swaps.
  pub swap_step :
      {m : Pointers} (m' : Pointers) (p p' : Pc)
      → Inv m (xs ++ p ∷ ys)
      → m'.n_active_readers ≡ m.n_active_readers
      → swapping p ≡ 1
      → counted p' ≡ counted p
      → Says m'.read_buf m'.write_buf p'
      → (swapping p' ≡ 0 → m'.read_buf ≡ not m'.write_buf)
      → Inv m' (xs ++ p' ∷ ys)
  swap_step m' p p' inv same swaps stays says apart =
      let a = total-append swapping xs (p ∷ ys) in
      let b = total-append swapping xs (p' ∷ ys) in
      let c = total-append counted xs (p ∷ ys) in
      let d = total-append counted xs (p' ∷ ys) in
      let le = swapping-le-counted p' in
      let r = m'.read_buf in
      let w = m'.write_buf in
      record {
        counts = omega (arith, inv.counts, same, stays, c, d);
        one = omega (arith, inv.one, swaps, a, b, le);
        says =
            AllSay-join r w xs p' ys (AllSay-others r w xs (omega (arith, inv.one, swaps, a))) says
              (AllSay-others r w ys (omega (arith, inv.one, swaps, a)));
        apart = λ e. apart (omega (arith, e, b));
      }

  -- A step of a thread that neither swaps before nor after.
  pub other_step :
      {m : Pointers} (n : ℕ) (p p' : Pc)
      → Inv m (xs ++ p ∷ ys)
      → swapping p ≡ 0
      → swapping p' ≡ 0
      → n + counted p ≡ m.n_active_readers + counted p'
      → Inv (record m { n_active_readers = n }) (xs ++ p' ∷ ys)
  other_step {m} n p p' inv before after count =
      let a = total-append swapping xs (p ∷ ys) in
      let b = total-append swapping xs (p' ∷ ys) in
      let c = total-append counted xs (p ∷ ys) in
      let d = total-append counted xs (p' ∷ ys) in
      let (front, _, back) = AllSay-split m.read_buf m.write_buf xs p ys inv.says in
      record {
        counts = omega (arith, inv.counts, count, c, d);
        one = omega (arith, inv.one, before, after, a, b);
        says =
            AllSay-join m.read_buf m.write_buf xs p' ys front
              (Says-other m.read_buf m.write_buf p' after) back;
        apart = λ e. inv.apart (omega (arith, e, before, after, a, b));
      }

  -- The first reader: nobody is counted, so that nobody swaps.
  pub first_step :
      {m : Pointers}
      → Inv m (xs ++ idle ∷ ys)
      → m.n_active_readers ≡ 0
      → Inv (record m { n_active_readers = 1 }) (xs ++ loading ∷ ys)
  first_step {m} inv none_yet =
      let a = total-append swapping xs (idle ∷ ys) in
      let b = total-append swapping xs (loading ∷ ys) in
      let c = total-append counted xs (idle ∷ ys) in
      let d = total-append counted xs (loading ∷ ys) in
      let le = total-le (xs ++ idle ∷ ys) in
      let (front, _, back) = AllSay-split m.read_buf m.write_buf xs idle ys inv.says in
      record {
        counts = omega (arith, inv.counts, none_yet, c, d);
        one = omega (arith, inv.counts, none_yet, le, a, b);
        says =
            AllSay-join m.read_buf m.write_buf xs loading ys front
              (inv.apart (omega (arith, inv.counts, none_yet, le))) back;
        apart = λ e. absurd (omega (arith, e, b));
      }
