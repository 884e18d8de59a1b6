-- ===== src/Storage/Flash.antt =====
-- The flash memory behind `esp_storage::FlashStorage`, as config_store.rs uses it.
use paper_name_plate.Base.{
  ℕ, zero, suc, ◌+◌, ◌≤◌, ◌<◌, ◌≡◌, refl, ap, ap₂, ◌∙◌, ◌⊎◌, inl, inr, arith,
}
use paper_name_plate.Base.{List, [], ◌∷◌, ◌++◌, Bool, true, Option, some, length, get_or}

-- `n` bytes from address `a` on
abbrev pub cells : (ℕ → ℕ) → ℕ → ℕ → List ℕ
cells f a zero = []
cells f a (suc n) = f a ∷ cells f (suc a) n

-- A read fails or gives bytes; a write returns the new state and whether it succeeded. As
-- documented, a read inside the memory gives what the cells hold, and a write that succeeds replaces
-- the cells that it covers (the driver erases and rewrites the sector) and no other.
pub record Flash : Type 1 where
  pub State : Type 0
  pub size : ℕ
  pub cell : State → ℕ → ℕ
  pub read : State → ℕ → ℕ → Option (List ℕ)
  pub write : State → ℕ → List ℕ → State × Bool
  pub read_cells : (s : State) (a n : ℕ) → a + n ≤ size → read s a n ≡ some (cells (cell s) a n)
  pub write_inside :
      (s : State) (a : ℕ) (bs : List ℕ) (k : ℕ)
      → (write s a bs).1 ≡ true
      → k < length bs
      → cell (write s a bs).0 (a + k) ≡ get_or bs k 0
  pub write_outside :
      (s : State) (a : ℕ) (bs : List ℕ) (b : ℕ)
      → (write s a bs).1 ≡ true
      → (b < a) ⊎ (a + length bs ≤ b)
      → cell (write s a bs).0 b ≡ cell s b

pub length-cells : (f : ℕ → ℕ) (a n : ℕ) → length (cells f a n) ≡ n
length-cells f a zero = refl
length-cells f a (suc n) = ap suc (length-cells f (suc a) n)

-- Cells that agree give the same bytes.
pub cells_eq :
    (f g : ℕ → ℕ) (a n : ℕ) → ((b : ℕ) → a ≤ b → b < a + n → f b ≡ g b) → cells f a n ≡ cells g a n
cells_eq f g a zero h = refl
cells_eq f g a (suc n) h =
    ap₂ ◌∷◌ (h a (omega arith) (omega arith))
      (cells_eq f g (suc a) n (λ b p q. h b (omega arith) (omega arith)))

-- Cells that hold a list give that list.
pub cells_of_list :
    (f : ℕ → ℕ) (a : ℕ) (bs : List ℕ)
    → ((k : ℕ) → k < length bs → f (a + k) ≡ get_or bs k 0)
    → cells f a (length bs) ≡ bs
cells_of_list f a [] h = refl
cells_of_list f a (b ∷ bs) h =
    ap₂ ◌∷◌ (ap f (omega arith) ∙ h 0 (omega arith))
      (cells_of_list f (suc a) bs (λ k p. ap f (omega arith) ∙ h (suc k) (omega arith)))

pub cells-append : (f : ℕ → ℕ) (a n m : ℕ) → cells f a (n + m) ≡ cells f a n ++ cells f (a + n) m
cells-append f a zero m =
    let e : zero + m ≡ m = omega arith in let d : a ≡ a + zero = omega arith in ap₂ (cells f) d e
cells-append f a (suc n) m =
    let e : suc n + m ≡ suc (n + m) = omega arith in
    let d : suc a + n ≡ a + suc n = omega arith in
    ap (cells f a) e
    ∙ ap (λ t. f a ∷ t) (cells-append f (suc a) n m ∙ ap (λ b. cells f (suc a) n ++ cells f b m) d)

module _ (fl : Flash) where
  open fl use {State, cell, read, write, write_inside, write_outside}

  -- What a successful write leaves at its address, and elsewhere.
  pub cells-write :
      (s : State) (a : ℕ) (bs : List ℕ)
      → (write s a bs).1 ≡ true
      → cells (cell (write s a bs).0) a (length bs) ≡ bs
  cells-write s a bs ok = cells_of_list _ a bs (λ k p. write_inside s a bs k ok p)

  pub cells-write_outside :
      (s : State) (a : ℕ) (bs : List ℕ) (b n : ℕ)
      → (write s a bs).1 ≡ true
      → (b + n ≤ a) ⊎ (a + length bs ≤ b)
      → cells (cell (write s a bs).0) b n ≡ cells (cell s) b n
  cells-write_outside s a bs b n ok h =
      cells_eq _ _ b n (λ c p q. write_outside s a bs c ok (apart h p q))
    where
      apart :
          {c : ℕ}
          → (b + n ≤ a) ⊎ (a + length bs ≤ b)
          → b ≤ c
          → c < b + n
          → (c < a) ⊎ (a + length bs ≤ c)
      apart (inl h) p q = inl (omega arith)
      apart (inr h) p q = inr (omega arith)
