-- ===== src/Buffer/Writers.antt =====
-- Several threads in buffer_write_copy at once: one step for each atomic access, in any order.
-- The ranges that they copy to never meet.
use pcm3060_kernelmodule.Prelude.{
  ℕ, ◌+◌, ◌-◌, ◌^◌, ◌≤◌, ◌<◌, ◌≡◌, ◌≢◌, refl, ◌∙◌, subst, ◌⊎◌, inl, inr, true, false, List, arith,
  length, splice, ◌==◌, if◌then◌else◌, Bool-cases, Bool-cases,
}
use pcm3060_kernelmodule.Prelude.Words.{add32, sub32}
use pcm3060_kernelmodule.Buffer.{Buffer, WrOffsetRange, off_range}

-- Where a thread stands in `buffer_write_copy`, with its locals.
pub data Pc : Type 0 where
  idle : Pc
  -- the buffer was not full; next `atomic_inc_return(n_active_writters)`
  entered : ℕ → Pc
  -- the first writer; next `mutex_lock`
  locking : ℕ → Pc
  -- next `atomic_add_return(buflen, write_off)`
  claiming : ℕ → Pc
  -- next `atomic_add(n_bytes_writable, n_bytes_written_tmp)`
  counting : WrOffsetRange → Pc
  -- next `memcpy`
  copying : WrOffsetRange → Pc
  -- next `atomic_dec_and_test(n_active_writters)`
  leaving : Pc
  -- the last writer: `mutex_unlock`, then the count, then its reset
  unlocking publishing clearing : Pc
  -- not the last writer; next `mutex_lock`
  waiting : Pc

-- One access of one thread. The bytes of a copy are arbitrary. No offset wraps: with the offset below
-- the size and the lengths of the writers under way, the sum stays below 2 ^ 32.
pub data Move (b : Buffer) : Pc → Buffer → Pc → Type 0 where
  enter : (n : ℕ) → 0 < n → b.write_off < b.bufsize → Move b idle b (entered n)
  join_first :
      {n : ℕ}
      → b.n_active_writters ≡ 0
      → Move b (entered n) (record b { n_active_writters = 1 }) (locking n)
  join :
      {n : ℕ}
      → 0 < b.n_active_writters
      → Move b (entered n) (record b { n_active_writters = b.n_active_writters + 1 }) (claiming n)
  lock : {n : ℕ} → b.mlock ≡ false → Move b (locking n) (record b { mlock = true }) (claiming n)
  claim :
      {n : ℕ}
      → b.write_off + n < 2 ^ 32
      → Move b
          (claiming n)
          (record b { write_off = b.write_off + n })
          (counting (off_range b.bufsize (b.write_off + n) n))
  count :
      {r : WrOffsetRange}
      → Move b
          (counting r)
          (record b { n_bytes_written_tmp = b.n_bytes_written_tmp + r.n_bytes_writable })
          (copying r)
  copy :
      {r : WrOffsetRange} (bs : List ℕ)
      → length bs ≡ r.n_bytes_writable
      → Move b (copying r) (record b { buf = splice b.buf r.wr_off_start bs }) leaving
  leave_last :
      b.n_active_writters ≡ 1 → Move b leaving (record b { n_active_writters = 0 }) unlocking
  leave :
      1 < b.n_active_writters
      → Move b leaving (record b { n_active_writters = b.n_active_writters - 1 }) waiting
  unlock : b.mlock ≡ true → Move b unlocking (record b { mlock = false }) publishing
  publish :
      Move b publishing
        (record b { n_bytes_written = b.n_bytes_written + b.n_bytes_written_tmp })
        clearing
  clear : Move b clearing (record b { n_bytes_written_tmp = 0 }) idle
  wait : b.mlock ≡ false → Move b waiting (record b { mlock = true }) idle

-- The buffer and the threads.
pub record System : Type 0 where
  pub mem : Buffer
  pub pc : ℕ → Pc

abbrev pub update : (ℕ → Pc) → ℕ → Pc → ℕ → Pc
update pc i p j = if i == j then p else pc j

pub data Step (s : System) : System → Type 0 where
  pick :
      (i : ℕ) {b : Buffer} {p : Pc}
      → Move s.mem (s.pc i) b p
      → Step s (record { mem = b; pc = update s.pc i p })

abbrev pub start : Buffer → System
start b = record { mem = b; pc = λ _. idle }

pub data Reach (b : Buffer) : System → Type 0 where
  here : Reach b (start b)
  next : {s t : System} → Reach b s → Step s t → Reach b t

-- The range that a thread has claimed and not yet left: from `low` on, up to `high`.
abbrev pub low : Pc → ℕ
low (counting r) = r.wr_off_start
low (copying r) = r.wr_off_start
low _ = 0

abbrev pub high : Pc → ℕ
high (counting r) = r.wr_off_start + r.n_bytes_writable
high (copying r) = r.wr_off_start + r.n_bytes_writable
high _ = 0

abbrev pub Apart : Pc → Pc → Type 0
Apart p q = (high p ≤ low q) ⊎ (high q ≤ low p)

-- A range lies below the offset and, if it has a byte, inside the storage.
abbrev pub Inside : Buffer → Pc → Type 0
Inside b p = (high p ≤ b.write_off) × ((high p < b.bufsize) ⊎ (high p ≡ low p))

pub record Separate (b : Buffer) (pc : ℕ → Pc) : Type 0 where
  pub inside : (i : ℕ) → Inside b (pc i)
  pub apart : (i j : ℕ) → i ≢ j → Apart (pc i) (pc j)

off_range-Inside :
    (size off n : ℕ)
    → off + n < 2 ^ 32
    → size < 2 ^ 31
    → let r = off_range size (off + n) n in
      (r.wr_off_start ≡ off)
      × (r.wr_off_start + r.n_bytes_writable ≤ off + n)
      × ((r.wr_off_start + r.n_bytes_writable < size) ⊎ (r.n_bytes_writable ≡ 0))
unfolding off_range add32 sub32
off_range-Inside size off n h small = ground arith

record Kept (m b : Buffer) (p p' : Pc) : Type 0 where
  size : b.bufsize ≡ m.bufsize
  own : Inside b p'
  others : (q : Pc) → Inside m q → Inside b q
  still : (q : Pc) → Inside m q → Apart p q → Apart p' q

Move-Kept :
    {m b : Buffer} {p p' : Pc} → Move m p b p' → m.bufsize < 2 ^ 31 → Inside m p → Kept m b p p'
Move-Kept {m} (claim {n} h) small i =
    let range = off_range-Inside m.bufsize m.write_off n h small in
    record {
      size = refl;
      own = ground (arith, range);
      others = λ q k. (omega arith, k.1);
      still = λ q k a. inr (ground (arith, range));
    }
Move-Kept count small i = record { size = refl; own = i; others = λ q k. k; still = λ q k a. a }
Move-Kept mv small i = record {
  size = refl;
  own = (omega arith, inr refl);
  others = λ q k. k;
  still = λ q k a. inl (omega arith);
}

swap : (p q : Pc) → Apart p q → Apart q p
swap p q (inl h) = inr h
swap p q (inr h) = inl h

Step-Separate :
    {s t : System}
    → Step s t
    → s.mem.bufsize < 2 ^ 31
    → Separate s.mem s.pc
    → (t.mem.bufsize ≡ s.mem.bufsize) × Separate t.mem t.pc
Step-Separate {s} (pick i {b} {p} mv) small sep =
    (kept.size, record { inside = λ j. at j; apart = λ j k ne. between j k ne })
  where
    kept : Kept s.mem b (s.pc i) p
    kept = Move-Kept mv small (sep.inside i)

    at : (j : ℕ) → Inside b (update s.pc i p j)
    at j = elim (Bool-cases (i == j)) [
      | inl e ↦ rw e kept.own
      | inr e ↦ rw e (kept.others (s.pc j) (sep.inside j))
    ]

    between : (j k : ℕ) → j ≢ k → Apart (update s.pc i p j) (update s.pc i p k)
    between j k ne = elim (Bool-cases (i == j)) [
      | inl ej ↦ elim (Bool-cases (i == k)) [
        | inl ek ↦ absurd (ne (ground arith))
        | inr ek ↦ rw (ej, ek) (kept.still (s.pc k) (sep.inside k) (sep.apart i k (ground arith)))
      ]
      | inr ej ↦ elim (Bool-cases (i == k)) [
        | inl ek ↦
            rw (ej, ek)
              (swap p (s.pc j) (kept.still (s.pc j) (sep.inside j) (sep.apart i j (ground arith))))
        | inr ek ↦ rw (ej, ek) (sep.apart j k ne)
      ]
    ]

Reach-Separate :
    {b : Buffer} {s : System}
    → b.bufsize < 2 ^ 31
    → Reach b s
    → (s.mem.bufsize ≡ b.bufsize) × Separate s.mem s.pc
Reach-Separate small here =
    (refl, record { inside = λ i. (omega arith, inr refl); apart = λ i j ne. inl (omega arith) })
Reach-Separate small (next r st) =
    let (size, sep) = Reach-Separate small r in
    let (size', sep') = Step-Separate st (omega (arith, size)) sep in (size' ∙ size, sep')

-- However the steps of any number of writers interleave, from a buffer without writers on and as
-- long as no offset wraps, the ranges that two of them hold never overlap, and a range that is not
-- empty ends inside the storage.
pub writers-Apart :
    {b : Buffer} {s : System}
    → b.bufsize < 2 ^ 31
    → Reach b s
    → (i j : ℕ) → i ≢ j
    → Apart (s.pc i) (s.pc j) × ((high (s.pc i) < b.bufsize) ⊎ (high (s.pc i) ≡ low (s.pc i)))
writers-Apart {b} {s} small r i j ne =
    let (size, sep) = Reach-Separate small r in
    let p = s.pc i in
    (sep.apart i j ne, subst (λ k. (high p < k) ⊎ (high p ≡ low p)) size (sep.inside i).1)
