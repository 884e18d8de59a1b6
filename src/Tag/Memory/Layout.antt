-- ===== src/Tag/Memory/Layout.antt =====
-- The memory of a new tag.
use paper_name_plate.Base.{ℕ, ◌≡◌, refl, [], ◌∷◌, length}
use paper_name_plate.Tag.Memory.{new_memory, uid_of, mem_bytes, ndef, found}

length-new_memory :
    (a b c d e f g : ℕ) → length (new_memory (a ∷ b ∷ c ∷ d ∷ e ∷ f ∷ g ∷ [])) ≡ mem_bytes
unfolding new_memory
length-new_memory a b c d e f g = refl

-- A new tag answers with the UID that it was made with, and holds an empty NDEF message, in a memory
-- of 924 bytes.
pub new_memory_lem :
    (a b c d e f g : ℕ)
    → let m = new_memory (a ∷ b ∷ c ∷ d ∷ e ∷ f ∷ g ∷ []) in
      (length m ≡ mem_bytes) × (uid_of m ≡ a ∷ b ∷ c ∷ d ∷ e ∷ f ∷ g ∷ []) × (ndef m ≡ found [])
unfolding new_memory uid_of ndef
new_memory_lem a b c d e f g = (refl, refl, refl)
