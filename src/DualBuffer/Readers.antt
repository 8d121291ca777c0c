-- ===== src/DualBuffer/Readers.antt =====
-- Several threads in _copy and _write at once: one step for each access to the count and the two
-- pointers, in any order. _write_from_user has the accesses of _write. The bytes of the two buffers are
-- left out, and so are waits for writers.
mod Invariant
pub mod Swaps
use pcm3060_kernelmodule.Prelude.{
  not, ℕ, zero, suc, ◌+◌, ◌-◌, ◌^◌, ◌≤◌, ◌<◌, ◌≡◌, refl, sym, ap, ◌∙◌, inl, inr, Bool, true, false,
  not, List, [], ◌∷◌, ◌++◌, length, length-append, arith, ◌==◌, Bool-cases, if◌then◌else◌,
  ℕ_discrete,
}
use pcm3060_kernelmodule.Prelude.Words.{add32, sub32, add32-eq, sub32-eq}

-- `_dualbuffer_impl_t`: the count, and which of the two buffers each pointer has.
pub record Pointers : Type 0 where
  pub n_active_readers : ℕ
  pub read_buf : Bool
  pub write_buf : Bool

-- Where a thread stands in `_copy` or `_write`, with its locals.
pub data Pc : Type 0 where
  -- next `atomic_inc_return(n_active_readers)`, or the load of `write_buf` for a write
  idle : Pc
  -- the first reader; next the load of `write_buf` into `tmp`
  loading : Pc
  -- next the reset of the read buffer, the store of `write_buf`, the store of `read_buf`
  resetting storing_write storing_read : (tmp : Bool) → Pc
  -- next `buffer_sync`
  syncing : Pc
  -- next the load of `read_buf`
  starting : Pc
  -- in `buffer_read_copy` on this buffer
  reading : Bool → Pc
  -- next `atomic_dec(n_active_readers)`
  ending : Pc
  -- in `buffer_write_copy` on this buffer
  writing : Bool → Pc

-- What a reader does after `atomic_inc_return`.
abbrev pub after_inc : ℕ → Pc
after_inc n = if n == 1 then loading else starting

pub data Move (m : Pointers) : Pc → Pointers → Pc → Type 0 where
  register :
      Move m idle
        (record m { n_active_readers = add32 m.n_active_readers 1 })
        (after_inc (add32 m.n_active_readers 1))
  load : Move m loading m (resetting m.write_buf)
  reset : {tmp : Bool} → Move m (resetting tmp) m (storing_write tmp)
  store_write :
      {tmp : Bool}
      → Move m (storing_write tmp) (record m { write_buf = m.read_buf }) (storing_read tmp)
  store_read : {tmp : Bool} → Move m (storing_read tmp) (record m { read_buf = tmp }) syncing
  sync : Move m syncing m starting
  start : Move m starting m (reading m.read_buf)
  finish : {r : Bool} → Move m (reading r) m ending
  leave : Move m ending (record m { n_active_readers = sub32 m.n_active_readers 1 }) idle
  begin_write : Move m idle m (writing m.write_buf)
  end_write : {w : Bool} → Move m (writing w) m idle

-- The readers that are counted, and those that swap.
abbrev pub counted : Pc → ℕ
counted idle = 0
counted (writing w) = 0
counted _ = 1

abbrev pub swapping : Pc → ℕ
swapping loading = 1
swapping (resetting tmp) = 1
swapping (storing_write tmp) = 1
swapping (storing_read tmp) = 1
swapping syncing = 1
swapping _ = 0

abbrev pub total : (Pc → ℕ) → List Pc → ℕ
total f [] = 0
total f (p ∷ pcs) = f p + total f pcs

-- What a number of threads reach, from one where none of them has started.
pub data Reach (m0 : Pointers) (idlers : List Pc) : Pointers → List Pc → Type 0 where
  here : Reach m0 idlers m0 idlers
  next :
      {m m' : Pointers} {p p' : Pc} (before after : List Pc)
      → Reach m0 idlers m (before ++ p ∷ after)
      → Move m p m' p'
      → Reach m0 idlers m' (before ++ p' ∷ after)

-- Threads that have not started.
abbrev pub idlers : ℕ → List Pc
idlers zero = []
idlers (suc k) = idle ∷ idlers k

-- No reader, and two different buffers.
abbrev pub at_rest : Bool → Pointers
at_rest r = record { n_active_readers = 0; read_buf = r; write_buf = not r }
