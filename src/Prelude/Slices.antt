-- ===== src/Prelude/Slices.antt =====
-- A window of a byte array, and an array with a window overwritten.
use Prim.Native.Nat.{ℕ, ◌+◌, ◌-◌, ◌≤◌, min}
use mathlib.Core.Path.{◌≡◌, refl, ap, sym, ◌∙◌, ◌≡⟨◌⟩◌, ◌∎}
use mathlib.Core.List.{List, [], ◌++◌}
use native.Mathlib.Omega.{arith}
use pcm3060_kernelmodule.Prelude.Lists.{
  length, take, drop, length-append, length-take, length-drop, take-all, take-append, drop-append,
  drop-append_past, drop-drop, take-take, take-drop, take-append-drop,
}

module _ {ℓ} {A : Type ℓ} where
  -- the `n` items from index `off` on
  unfoldable pub slice : ℕ → ℕ → List A → List A
  slice off n xs = take n (drop off xs)

  -- `dst` with `src` written over it from index `off` on
  unfoldable pub splice : List A → ℕ → List A → List A
  splice dst off src = take off dst ++ (src ++ drop (off + length src) dst)

  pub length-slice : (off n : ℕ) (xs : List A) → length (slice off n xs) ≡ min n (length xs - off)
  unfolding slice
  length-slice off n xs = omega (arith, length-take n (drop off xs), length-drop off xs)

  pub length-splice :
      (dst : List A) (off : ℕ) (src : List A)
      → off + length src ≤ length dst
      → length (splice dst off src) ≡ length dst
  unfolding splice
  length-splice dst off src h = omega (
    arith,
    length-append (take off dst) (src ++ drop (off + length src) dst),
    length-append src (drop (off + length src) dst),
    length-take off dst,
    length-drop (off + length src) dst,
  )

  pub splice-nil : (dst : List A) (off : ℕ) → splice dst off [] ≡ dst
  unfolding splice
  splice-nil dst off = ap (λ k. take off dst ++ drop k dst) (omega arith) ∙ take-append-drop off dst

  pub slice-zero : (off : ℕ) (xs : List A) → slice off 0 xs ≡ []
  unfolding slice
  slice-zero off xs = refl

  pub splice-slice_zero :
      (dst : List A) (off from : ℕ) (xs : List A) → splice dst off (slice from 0 xs) ≡ dst
  splice-slice_zero dst off from xs = rw slice-zero (splice-nil dst off)

  pub slice-all : (n : ℕ) (xs : List A) → length xs ≤ n → slice 0 n xs ≡ xs
  unfolding slice
  slice-all n xs h = take-all n xs h

  pub slice-slice : (off n m : ℕ) (xs : List A) → m ≤ n → take m (slice off n xs) ≡ slice off m xs
  unfolding slice
  slice-slice off n m xs h = take-take m n (drop off xs) h

  pub slice-slice_front :
      (off n m : ℕ) (xs : List A) → m ≤ n → slice 0 m (slice off n xs) ≡ slice off m xs
  unfolding slice
  slice-slice_front off n m xs h = slice-slice off n m xs h

  -- A window is its front followed by its back.
  pub slice-add :
      (off n m : ℕ) (xs : List A) → slice off (n + m) xs ≡ slice off n xs ++ slice (off + n) m xs
  unfolding slice
  slice-add off n m xs =
      slice off (n + m) xs
      ≡⟨ sym (take-append-drop n (slice off (n + m) xs)) ⟩
        take n (slice off (n + m) xs) ++ drop n (slice off (n + m) xs)
      ≡⟨ ap (λ t. t ++ drop n (slice off (n + m) xs)) (slice-slice off (n + m) n xs (omega arith)) ⟩
        slice off n xs ++ drop n (slice off (n + m) xs)
      ≡⟨ ap (λ t. slice off n xs ++ t) (sym (take-drop m n (drop off xs))) ⟩
        slice off n xs ++ take m (drop n (drop off xs))
      ≡⟨ ap (λ t. slice off n xs ++ take m t) (drop-drop n off xs) ⟩
        slice off n xs ++ slice (off + n) m xs ∎

  pub drop-slice :
      (off n m : ℕ) (xs : List A) → m ≤ n → drop m (slice off n xs) ≡ slice (off + m) (n - m) xs
  unfolding slice
  drop-slice off n m xs h =
      drop m (slice off n xs)
      ≡⟨ ap (λ k. drop m (take k (drop off xs))) back ⟩ drop m (take (m + (n - m)) (drop off xs))
      ≡⟨ sym (take-drop (n - m) m (drop off xs)) ⟩ take (n - m) (drop m (drop off xs))
      ≡⟨ ap (λ t. take (n - m) t) (drop-drop m off xs) ⟩ slice (off + m) (n - m) xs ∎
    where
      back : n ≡ m + (n - m)
      back = omega arith

  pub slice-splice_self :
      (dst : List A) (off : ℕ) (src : List A)
      → off ≤ length dst
      → slice off (length src) (splice dst off src) ≡ src
  unfolding slice splice
  slice-splice_self dst off src h =
      ap (λ k. take (length src) (drop k (splice dst off src))) {x = off} {y = off + 0}
        (omega arith)
      ∙ ap (λ t. take (length src) t)
          (drop-append_past 0 off (take off dst) (src ++ drop (off + length src) dst)
            (omega (arith, length-take off dst)))
      ∙ take-append (length src) src (drop (off + length src) dst) (omega arith)
      ∙ take-all (length src) src (omega arith)

  pub slice-splice_before :
      (dst : List A) (off : ℕ) (src : List A) (a n : ℕ)
      → a + n ≤ off
      → off ≤ length dst
      → slice a n (splice dst off src) ≡ slice a n dst
  unfolding slice splice
  slice-splice_before dst off src a n h le =
      ap (λ t. take n t)
        (drop-append a (take off dst) (src ++ drop (off + length src) dst)
          (omega (arith, length-take off dst)))
      ∙ take-append n (drop a (take off dst)) (src ++ drop (off + length src) dst)
          (omega (arith, length-take off dst, length-drop a (take off dst)))
      ∙ ap (λ k. take n (drop a (take k dst))) back
      ∙ ap (λ t. take n t) (sym (take-drop (off - a) a dst))
      ∙ take-take n (off - a) (drop a dst) (omega arith)
    where
      back : off ≡ a + (off - a)
      back = omega arith

  pub slice-splice_after :
      (dst : List A) (off : ℕ) (src : List A) (a n : ℕ)
      → off + length src ≤ a
      → off ≤ length dst
      → slice a n (splice dst off src) ≡ slice a n dst
  unfolding slice splice
  slice-splice_after dst off src a n h le =
      ap (λ t. take n t)
        (ap (λ k. drop k (splice dst off src)) back
          ∙ drop-append_past (length src + (a - off - length src)) off (take off dst)
              (src ++ drop (off + length src) dst) (omega (arith, length-take off dst))
          ∙ drop-append_past (a - off - length src) (length src) src (drop (off + length src) dst)
              refl
          ∙ drop-drop (a - off - length src) (off + length src) dst
          ∙ ap (λ k. drop k dst) front)
    where
      back : a ≡ off + (length src + (a - off - length src))
      back = omega arith

      front : off + length src + (a - off - length src) ≡ a
      front = omega arith

  -- Writing at the end of a window extends it.
  pub slice-splice_end :
      (dst : List A) (off : ℕ) (src : List A) (a : ℕ)
      → a ≤ off
      → off ≤ length dst
      → slice a (off - a + length src) (splice dst off src) ≡ slice a (off - a) dst ++ src
  slice-splice_end dst off src a h le =
      slice-add a (off - a) (length src) (splice dst off src)
      ∙ ap (λ t. t ++ slice (a + (off - a)) (length src) (splice dst off src))
          (slice-splice_before dst off src a (off - a) (omega arith) le)
      ∙ ap (λ k. slice a (off - a) dst ++ slice k (length src) (splice dst off src)) back
      ∙ ap (λ t. slice a (off - a) dst ++ t) (slice-splice_self dst off src le)
    where
      back : a + (off - a) ≡ off
      back = omega arith

  pub slice-append_past :
      (off n : ℕ) (xs ys : List A) → length xs ≡ off → slice off n (xs ++ ys) ≡ slice 0 n ys
  unfolding slice
  slice-append_past off n xs ys h =
      ap (λ k. take n (drop k (xs ++ ys))) {x = off} {y = off + 0} (omega arith)
      ∙ ap (λ t. take n t) (drop-append_past 0 off xs ys h)

  pub splice-front : (dst src : List A) → splice dst 0 src ≡ src ++ drop (length src) dst
  unfolding splice
  splice-front dst src = ap (λ k. src ++ drop k dst) (omega arith)

  pub slice-slice_mid :
      (off k m : ℕ) (xs : List A) → off + k ≤ m → slice off k (slice 0 m xs) ≡ slice off k xs
  unfolding slice
  slice-slice_mid off k m xs h =
      slice_front off k (slice 0 m xs)
      ∙ ap (λ t. slice 0 k t) (drop-slice 0 m off xs (omega arith))
      ∙ slice-slice_front (0 + off) (m - off) k xs (omega arith)
      ∙ ap (λ i. slice i k xs) (omega arith)
    where
      slice_front : (i n : ℕ) (ys : List A) → slice i n ys ≡ slice 0 n (drop i ys)
      slice_front i n ys = refl
