-- ===== src/Kernel/Run.antt =====
-- The outcome of a call: a result, an undefined access, or a wait that no one ends.
use pcm3060_kernelmodule.Prelude.{Bool, true, false}

-- `fault`: a NULL or freed pointer, an access outside an allocation, a division by zero.
-- `blocked`: the caller waits for a lock or completion that only another call releases.
pub data Run {ℓ} (A : Type ℓ) : Type ℓ where
  ok : A → Run A
  fault : Run A
  blocked : Run A

infixl 5 ◌>>=◌
-- The next statement, on the result of the last one.
abbrev pub ◌>>=◌ {ℓ κ} : {A : Type ℓ} {B : Type κ} → Run A → (A → Run B) → Run B
blocked >>= k = blocked
fault >>= k = fault
ok a >>= k = k a

-- `mutex_lock` and `mutex_unlock` on a mutex that is held or not. Only its holder releases it.
abbrev pub mutex_lock : Bool → Run Bool
mutex_lock false = ok true
mutex_lock true = blocked

abbrev pub mutex_unlock : Bool → Run Bool
mutex_unlock true = ok false
mutex_unlock false = fault
