-- ===== src/Base/Slices.antt =====
-- Slices of byte vectors: `v.get(a..b)`, `v[a..b].copy_from_slice(w)`, and equality of slices.
use mathlib.Core.List.{List, [], ◌∷◌, ◌++◌}
use mathlib.Core.Bool.{Bool, true, false, ◌&&◌}
use native.Mathlib.Omega.{arith}
use package.paper_name_plate.Base.Tests.{◌==◌}
use package.paper_name_plate.Base.Lists.{length, get_or, take, drop, set, length-drop}
use package.paper_name_plate.Base.Lists.{length-set, get_or-set_self, get_or-set_ne}
use native.Mathlib.Decide.{dec_le}
use native.Mathlib.Nat.{add-zero}
use mathlib.Core.Path.{◌≡◌, refl, ap, ◌∙◌}
use mathlib.Core.Logic.{◌⊎◌, inl}
use mathlib.Core.Option.{Option, none, some}
use Prim.Native.Nat.{ℕ, zero, suc, ◌+◌, ◌≤◌, ◌<◌}

module _ {ℓ} {A : Type ℓ} where
  -- `v.get(i)`
  abbrev pub get_elem? : List A → ℕ → Option A
  get_elem? [] i = none
  get_elem? (x ∷ xs) zero = some x
  get_elem? (x ∷ xs) (suc i) = get_elem? xs i

  -- `v.get(a..)`: the tail from `a`, if `a` is at most the length
  abbrev pub drop? : List A → ℕ → Option (List A)
  drop? xs zero = some xs
  drop? [] (suc a) = none
  drop? (x ∷ xs) (suc a) = drop? xs a

  -- the first `n`, if there are so many
  abbrev pub take? : List A → ℕ → Option (List A)
  take? xs zero = some []
  take? [] (suc n) = none
  take? (x ∷ xs) (suc n) = elim (take? xs n) [ none ↦ none | some ys ↦ some (x ∷ ys) ]

  -- `v.get(a..a + n)`
  abbrev pub get_range? : List A → ℕ → ℕ → Option (List A)
  get_range? xs a n = elim (drop? xs a) [ none ↦ none | some ys ↦ take? ys n ]

  -- `v[i..i + w.len()].copy_from_slice(w)`, in range: the cells from `i` on become `w`.
  abbrev pub write_at : List A → ℕ → List A → List A
  write_at xs i [] = xs
  write_at xs i (w ∷ ws) = write_at (set xs i w) (suc i) ws

-- `a == b` on byte slices
abbrev pub bytes_eq : List ℕ → List ℕ → Bool
bytes_eq [] [] = true
bytes_eq [] (y ∷ ys) = false
bytes_eq (x ∷ xs) [] = false
bytes_eq (x ∷ xs) (y ∷ ys) = x == y && bytes_eq xs ys

pub bytes_eq_refl : (xs : List ℕ) → bytes_eq xs xs ≡ true
bytes_eq_refl [] = refl
bytes_eq_refl (x ∷ xs) = ground (arith, bytes_eq_refl xs)

module _ {ℓ} {A : Type ℓ} where
  pub take?-some : (xs : List A) (n : ℕ) → n ≤ length xs → take? xs n ≡ some (take n xs)
  take?-some xs zero h = refl
  take?-some [] (suc n) h = absurd (omega arith)
  take?-some (x ∷ xs) (suc n) h = rw (take?-some xs n (omega arith))

  pub take?-none : (xs : List A) (n : ℕ) → length xs < n → take? xs n ≡ none
  take?-none xs zero h = absurd (omega arith)
  take?-none [] (suc n) h = refl
  take?-none (x ∷ xs) (suc n) h = rw (take?-none xs n (omega arith))

  pub drop?-some : (xs : List A) (a : ℕ) → a ≤ length xs → drop? xs a ≡ some (drop a xs)
  drop?-some xs zero h = refl
  drop?-some [] (suc a) h = absurd (omega arith)
  drop?-some (x ∷ xs) (suc a) h = drop?-some xs a (omega arith)

  pub drop?-none : (xs : List A) (a : ℕ) → length xs < a → drop? xs a ≡ none
  drop?-none xs zero h = absurd (omega arith)
  drop?-none [] (suc a) h = refl
  drop?-none (x ∷ xs) (suc a) h = drop?-none xs a (omega arith)

  -- `v.get(a..a + n)` is there exactly when the range ends inside `v`.
  pub get_range?-some :
      (xs : List A) (a n : ℕ) → a + n ≤ length xs → get_range? xs a n ≡ some (take n (drop a xs))
  get_range?-some xs a n h =
      rw (drop?-some xs a (omega arith), get_range?)
        (take?-some (drop a xs) n (omega (arith, length-drop a xs)))

  pub get_range?-none : (xs : List A) (a n : ℕ) → length xs < a + n → get_range? xs a n ≡ none
  get_range?-none xs a n h = elim (dec_le a (length xs)) [
    | yes p ↦
        rw (drop?-some xs a p, get_range?)
          (take?-none (drop a xs) n (omega (arith, length-drop a xs)))
    | no p ↦ rw (drop?-none xs a (omega arith), get_range?)
  ]

  pub length-write_at : (ws xs : List A) (i : ℕ) → length (write_at xs i ws) ≡ length xs
  length-write_at [] xs i = refl
  length-write_at (w ∷ ws) xs i = length-write_at ws (set xs i w) (suc i) ∙ length-set xs i w

  -- A cell outside the range written keeps its value.
  pub get_or-write_at_out :
      (ws xs : List A) (i j : ℕ) (d : A)
      → (j < i) ⊎ (i + length ws ≤ j)
      → get_or (write_at xs i ws) j d ≡ get_or xs j d
  get_or-write_at_out [] xs i j d h = refl
  get_or-write_at_out (w ∷ ws) xs i j d h =
      get_or-write_at_out ws (set xs i w) (suc i) j d (ground arith)
      ∙ get_or-set_ne xs i j w d (omega arith)

  -- A cell of the range holds what was written.
  pub get_or-write_at_in :
      (ws xs : List A) (i k : ℕ) (d : A)
      → k < length ws
      → i + length ws ≤ length xs
      → get_or (write_at xs i ws) (i + k) d ≡ get_or ws k d
  get_or-write_at_in [] xs i k d h g = absurd (omega arith)
  get_or-write_at_in (w ∷ ws) xs i zero d h g = rw (add-zero i) (
      get_or-write_at_out ws (set xs i w) (suc i) i d (inl (omega arith))
      ∙ get_or-set_self xs i w d (omega arith))
  get_or-write_at_in (w ∷ ws) xs i (suc k) d h g =
      ap (λ n. get_or (write_at (set xs i w) (suc i) ws) n d) (omega arith)
      ∙ get_or-write_at_in ws (set xs i w) (suc i) k d (omega arith)
          (omega (arith, length-set xs i w))

module _ {ℓ} {A : Type ℓ} where
  -- Two writes, one behind the other, are one.
  pub write_at-append :
      (ws vs xs : List A) (i j : ℕ)
      → j ≡ i + length ws
      → write_at (write_at xs i ws) j vs ≡ write_at xs i (ws ++ vs)
  write_at-append [] vs xs i j e = ap (λ k. write_at xs k vs) (e ∙ add-zero i)
  write_at-append (w ∷ ws) vs xs i j e = write_at-append ws vs (set xs i w) (suc i) j (omega arith)

  write_at-cons :
      (ws xs : List A) (x : A) (i : ℕ) → write_at (x ∷ xs) (suc i) ws ≡ x ∷ write_at xs i ws
  write_at-cons [] xs x i = refl
  write_at-cons (w ∷ ws) xs x i = write_at-cons ws (set xs i w) x (suc i)

  -- The range written, read back.
  pub read-write_at :
      (i : ℕ) (ws xs : List A)
      → i + length ws ≤ length xs
      → take (length ws) (drop i (write_at xs i ws)) ≡ ws
  read-write_at zero [] xs h = refl
  read-write_at zero (w ∷ ws) [] h = absurd (omega arith)
  read-write_at zero (w ∷ ws) (x ∷ xs) h =
      rw (write_at-cons ws xs w 0) (ap (λ t. w ∷ t) (read-write_at zero ws xs (omega arith)))
  read-write_at (suc i) ws [] h = absurd (omega arith)
  read-write_at (suc i) ws (x ∷ xs) h =
      rw (write_at-cons ws xs x i) (read-write_at i ws xs (omega arith))

  pub take?-append : (xs ys : List A) → take? (xs ++ ys) (length xs) ≡ some xs
  take?-append [] ys = refl
  take?-append (x ∷ xs) ys = rw (take?-append xs ys)
