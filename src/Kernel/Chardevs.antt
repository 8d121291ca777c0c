-- ===== src/Kernel/Chardevs.antt =====
-- linux/fs.h and linux/device.h: giving back a range of device numbers and a class, by their contract.
use pcm3060_kernelmodule.Prelude.{ℕ, ◌≡◌, ◌≢◌, Option, none, some, List, [], ◌∷◌}

-- A class is known by its pointer, and a range of numbers, which starts at the minor number 0, by its
-- major number and count. `none`: the class is not registered, and the call is undefined.
pub record Chardevs : Type 0 where
  -- the class, and those that are registered
  pub class_unregister : ℕ → List ℕ → Option (List ℕ)
  pub class_destroy : ℕ → List ℕ → Option (List ℕ)
  -- the major number and the count, and the ranges that are registered
  pub unregister_chrdev_region : ℕ → ℕ → List (ℕ × ℕ) → List (ℕ × ℕ)
  pub unregister_new :
      (p : ℕ) (cs : List ℕ) → (cs' : List ℕ) × (class_unregister p (p ∷ cs) ≡ some cs')
  pub destroy_dead :
      (p : ℕ) (cs cs' : List ℕ) → class_unregister p cs ≡ some cs' → class_destroy p cs' ≡ none
  -- only the caller that has a range, with this count, can give it back
  pub other_range_stays :
      (major n m : ℕ) → n ≢ m → unregister_chrdev_region major n ((major, m) ∷ []) ≡ (major, m) ∷ []
