-- ===== src/Prelude/Lists.antt =====
-- Byte arrays as lists, measured and cut by native numbers, under the library's names.
use Prim.Native.Nat.{ℕ, zero, suc, ◌+◌, ◌-◌, ◌≤◌, min}
use mathlib.Core.Path.{◌≡◌, refl, ap, sym, ◌∙◌}
use mathlib.Core.List.{List, [], ◌∷◌, ◌++◌}
use native.Mathlib.Omega.{arith}

module _ {ℓ} {A : Type ℓ} where
  abbrev pub length : List A → ℕ
  length [] = 0
  length (x ∷ xs) = suc (length xs)

  abbrev pub take : ℕ → List A → List A
  take zero xs = []
  take (suc n) [] = []
  take (suc n) (x ∷ xs) = x ∷ take n xs

  abbrev pub drop : ℕ → List A → List A
  drop zero xs = xs
  drop (suc n) [] = []
  drop (suc n) (x ∷ xs) = drop n xs

  abbrev pub replicate : ℕ → A → List A
  replicate zero a = []
  replicate (suc n) a = a ∷ replicate n a

  pub length-append : (xs ys : List A) → length (xs ++ ys) ≡ length xs + length ys
  length-append [] ys = omega arith
  length-append (x ∷ xs) ys = omega (arith, length-append xs ys)

  pub length-take : (n : ℕ) (xs : List A) → length (take n xs) ≡ min n (length xs)
  length-take zero xs = omega arith
  length-take (suc n) [] = omega arith
  length-take (suc n) (x ∷ xs) = omega (arith, length-take n xs)

  pub length-drop : (n : ℕ) (xs : List A) → length (drop n xs) ≡ length xs - n
  length-drop zero xs = omega arith
  length-drop (suc n) [] = omega arith
  length-drop (suc n) (x ∷ xs) = omega (arith, length-drop n xs)

  pub length-replicate : (n : ℕ) (a : A) → length (replicate n a) ≡ n
  length-replicate zero a = refl
  length-replicate (suc n) a = ap suc (length-replicate n a)

  pub take-append-drop : (n : ℕ) (xs : List A) → take n xs ++ drop n xs ≡ xs
  take-append-drop zero xs = refl
  take-append-drop (suc n) [] = refl
  take-append-drop (suc n) (x ∷ xs) = ap (λ t. x ∷ t) (take-append-drop n xs)

  pub take-all : (n : ℕ) (xs : List A) → length xs ≤ n → take n xs ≡ xs
  take-all zero [] h = refl
  take-all zero (x ∷ xs) h = absurd (omega arith)
  take-all (suc n) [] h = refl
  take-all (suc n) (x ∷ xs) h = ap (λ t. x ∷ t) (take-all n xs (omega arith))

  pub drop-all : (n : ℕ) (xs : List A) → length xs ≤ n → drop n xs ≡ []
  drop-all zero [] h = refl
  drop-all zero (x ∷ xs) h = absurd (omega arith)
  drop-all (suc n) [] h = refl
  drop-all (suc n) (x ∷ xs) h = drop-all n xs (omega arith)

  pub take-append : (n : ℕ) (xs ys : List A) → n ≤ length xs → take n (xs ++ ys) ≡ take n xs
  take-append zero xs ys h = refl
  take-append (suc n) [] ys h = absurd (omega arith)
  take-append (suc n) (x ∷ xs) ys h = ap (λ t. x ∷ t) (take-append n xs ys (omega arith))

  pub take-append_all : (n : ℕ) (xs ys : List A) → length xs ≡ n → take n (xs ++ ys) ≡ xs
  take-append_all n xs ys h = take-append n xs ys (omega arith) ∙ take-all n xs (omega arith)

  pub drop-append : (n : ℕ) (xs ys : List A) → n ≤ length xs → drop n (xs ++ ys) ≡ drop n xs ++ ys
  drop-append zero xs ys h = refl
  drop-append (suc n) [] ys h = absurd (omega arith)
  drop-append (suc n) (x ∷ xs) ys h = drop-append n xs ys (omega arith)

  pub drop-append_past :
      (n m : ℕ) (xs ys : List A) → length xs ≡ m → drop (m + n) (xs ++ ys) ≡ drop n ys
  drop-append_past n m [] ys h = ap (λ k. drop k ys) (omega arith)
  drop-append_past n zero (x ∷ xs) ys h = absurd (omega arith)
  drop-append_past n (suc m) (x ∷ xs) ys h =
      ap (λ k. drop k (x ∷ xs ++ ys)) (shift) ∙ drop-append_past n m xs ys (omega arith)
    where
      shift : suc m + n ≡ suc (m + n)
      shift = omega arith

  pub take-append_past :
      (n m : ℕ) (xs ys : List A) → length xs ≡ m → take (m + n) (xs ++ ys) ≡ xs ++ take n ys
  take-append_past n m [] ys h = ap (λ k. take k ys) (omega arith)
  take-append_past n zero (x ∷ xs) ys h = absurd (omega arith)
  take-append_past n (suc m) (x ∷ xs) ys h =
      ap (λ k. take k (x ∷ xs ++ ys)) (shift)
      ∙ ap (λ t. x ∷ t) (take-append_past n m xs ys (omega arith))
    where
      shift : suc m + n ≡ suc (m + n)
      shift = omega arith

  pub drop-drop : (n m : ℕ) (xs : List A) → drop n (drop m xs) ≡ drop (m + n) xs
  drop-drop n zero xs = ap (λ k. drop k xs) (omega arith)
  drop-drop zero (suc m) [] = ap (λ k. drop k []) (shift)
    where
      shift : suc m ≡ suc m + 0
      shift = omega arith
  drop-drop (suc n) (suc m) [] = sym (drop-all (suc m + suc n) [] (omega arith))
  drop-drop n (suc m) (x ∷ xs) = drop-drop n m xs ∙ ap (λ k. drop k (x ∷ xs)) (shift)
    where
      shift : suc (m + n) ≡ suc m + n
      shift = omega arith

  pub take-take : (n m : ℕ) (xs : List A) → n ≤ m → take n (take m xs) ≡ take n xs
  take-take zero m xs h = refl
  take-take (suc n) zero xs h = absurd (omega arith)
  take-take (suc n) (suc m) [] h = refl
  take-take (suc n) (suc m) (x ∷ xs) h = ap (λ t. x ∷ t) (take-take n m xs (omega arith))

  pub take-drop : (n m : ℕ) (xs : List A) → take n (drop m xs) ≡ drop m (take (m + n) xs)
  take-drop n zero xs = ap (λ k. take k xs) (omega arith)
  take-drop zero (suc m) [] = sym (drop-all (suc m) (take (suc m + 0) []) (none_left (suc m + 0)))
    where
      none_left : (k : ℕ) → length (take k []) ≤ suc m
      none_left zero = omega arith
      none_left (suc k) = omega arith
  take-drop (suc n) (suc m) [] =
      sym
        (drop-all (suc m) (take (suc m + suc n) []) (omega (arith, length-take (suc m + suc n) [])))
  take-drop n (suc m) (x ∷ xs) = take-drop n m xs ∙ ap (λ k. drop (suc m) (take k (x ∷ xs))) (shift)
    where
      shift : suc (m + n) ≡ suc m + n
      shift = omega arith
