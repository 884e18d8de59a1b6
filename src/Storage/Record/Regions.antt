-- ===== src/Storage/Record/Regions.antt =====
-- The two records of config_store.rs: each is read back, and neither touches the other.
use paper_name_plate.Base.{
  ℕ, ◌+◌, ◌-◌, ◌≤◌, ◌≡◌, refl, sym, ap, ◌∙◌, ◌⊎◌, inl, inr, arith, min, replicate,
}
use paper_name_plate.Base.{List, [], ◌++◌, append-nil, none, some, true}
use paper_name_plate.Base.{length, take, take_all, length-take}
use paper_name_plate.Base.Bytes.{u16_le_bytes}
use paper_name_plate.Plate.Image.{MonoImage, encode, decode}
use paper_name_plate.Plate.Image.Codec.{IsImage, decode-encode, length-bits}
use paper_name_plate.Storage.Flash.{Flash, cells, cells-write, cells-write_outside}
use paper_name_plate.Storage.Record.{
  head_bytes, header_len, load_data, load_checked, load_rec, save_rec,
}
use paper_name_plate.Storage.Record.{load, save, load_image, clear_image, save_image}
use paper_name_plate.Storage.Record.{
  region_offset, region_size, max_data, image_offset, image_region, max_image,
}
use native.Mathlib.Decide.{dec_le}
use paper_name_plate.Storage.Record.RoundTrip.{load_rec-save_rec, cells-write_both_outside}

abbrev size_bytes : MonoImage → List ℕ
size_bytes img = u16_le_bytes img.width ++ u16_le_bytes img.height

-- The whole image fits the record.
whole :
    (img : MonoImage)
    → IsImage img
    → size_bytes img
        ++ take
            (min (length (size_bytes img) + length img.bits) max_image - length (size_bytes img))
            img.bits
      ≡ encode img
unfolding encode
whole img v = ap (λ t. size_bytes img ++ t) (take_all _ img.bits (omega (arith, length-bits img v)))

module _ (fl : Flash) where
  open fl use {State, size, cell, read, write, read_cells}

  -- The cells from `a` to `b` are the same in both states.
  abbrev SameCells : ℕ → ℕ → State → State → Type 0
  SameCells a b s t = (c n : ℕ) → a ≤ c → c + n ≤ b → cells (cell s) c n ≡ cells (cell t) c n

  same_read :
      (a b c n : ℕ) (s t : State)
      → SameCells a b s t
      → b ≤ size
      → a ≤ c
      → c + n ≤ b
      → read s c n ≡ read t c n
  same_read a b c n s t h inside lo hi =
      read_cells s c n (omega arith) ∙ ap some (h c n lo hi) ∙ sym (read_cells t c n (omega arith))

  same_load_data :
      (offset max : ℕ) (hdr : List ℕ) (s t : State)
      → SameCells offset (offset + (8 + max)) s t
      → offset + (8 + max) ≤ size
      → header_len hdr ≤ max
      → load_data fl s offset hdr ≡ load_data fl t offset hdr
  unfolding load_data
  same_load_data offset max hdr s t h inside l = rw (
    same_read offset (offset + (8 + max)) (offset + 8) (header_len hdr) s t h inside (omega arith)
        (omega arith),
    load_data,
  )

  same_load_checked :
      (offset max region : ℕ) (hdr : List ℕ) (s t : State)
      → SameCells offset (offset + (8 + max)) s t
      → offset + (8 + max) ≤ size
      → load_checked fl s offset max region hdr ≡ load_checked fl t offset max region hdr
  unfolding load_checked
  same_load_checked offset max region hdr s t h inside = elim (dec_le (header_len hdr) max) [
    | yes p ↦ rw (same_load_data offset max hdr s t h inside p, load_checked)
    | no p ↦ ground arith
  ]

  load_rec_of_read :
      (s : State) (offset max region : ℕ) (hdr : List ℕ)
      → read s offset 8 ≡ some hdr
      → load_rec fl s offset max region ≡ load_checked fl s offset max region hdr
  unfolding load_rec
  load_rec_of_read s offset max region hdr e = rw (e, load_rec)

  -- `load_rec` reads no cell behind the largest record.
  same_load_rec :
      (offset max region : ℕ) (s t : State)
      → SameCells offset (offset + (8 + max)) s t
      → offset + (8 + max) ≤ size
      → load_rec fl s offset max region ≡ load_rec fl t offset max region
  same_load_rec offset max region s t h inside =
      let hdr = cells (cell t) offset 8 in
      let e : read t offset 8 ≡ some hdr = read_cells t offset 8 (omega arith) in
      let d : read s offset 8 ≡ some hdr =
        same_read offset (offset + (8 + max)) offset 8 s t h inside (omega arith) (omega arith)
        ∙ e in
      load_rec_of_read s offset max region hdr d
      ∙ same_load_checked offset max region hdr s t h inside
      ∙ sym (load_rec_of_read t offset max region hdr e)

  save_rec_outside :
      (s : State) (offset max : ℕ) (prefix bytes : List ℕ) (a n : ℕ)
      → length prefix ≤ max
      → (save_rec fl s offset max prefix bytes).1 ≡ true
      → (a + n ≤ offset) ⊎ (offset + (8 + max) ≤ a)
      → cells (cell (save_rec fl s offset max prefix bytes).0) a n ≡ cells (cell s) a n
  unfolding save_rec
  save_rec_outside s offset max prefix bytes a n p ok h =
      let len = min (length prefix + length bytes) max in
      let rest = take (len - length prefix) bytes in
      cells-write_both_outside fl s offset (head_bytes len _ prefix) rest a n ok
        (within (unfold head_bytes in omega (arith, length-take (len - length prefix) bytes)) h)
    where
      within :
          {k : ℕ}
          → k ≤ 8 + max
          → (a + n ≤ offset) ⊎ (offset + (8 + max) ≤ a)
          → (a + n ≤ offset) ⊎ (offset + k ≤ a)
      within e (inl q) = inl q
      within e (inr q) = inr (omega arith)

  -- The flash holds both regions.
  abbrev pub HoldsRegions : Type 0
  HoldsRegions = image_offset + image_region ≤ size

  -- A content of 1 to 2048 bytes that was saved is loaded again, and saving it leaves the stored
  -- image as it was.
  pub load-save :
      (s : State) (bytes : List ℕ)
      → HoldsRegions
      → 1 ≤ length bytes
      → length bytes ≤ max_data
      → (save fl s bytes).1 ≡ true
      → (load fl (save fl s bytes).0 ≡ some bytes)
        × (load_image fl (save fl s bytes).0 ≡ load_image fl s)
  unfolding load save load_image
  load-save s bytes room one fits ok = (
    load_rec-save_rec fl s region_offset max_data region_size [] bytes (omega arith) (omega arith)
          (omega arith) (omega arith) (omega arith) (omega arith) ok
        ∙ ap some (take_all _ bytes (omega arith)),
    same_load_rec image_offset max_image image_region _ s
        (λ c n lo hi.
          save_rec_outside s region_offset max_data [] bytes c n (omega arith) ok
            (inr (omega arith)))
        (omega arith),
  )

  -- An image that fits the panel and was saved is loaded and decoded again, and saving it leaves
  -- the stored content as it was.
  pub load_image-save_image :
      (s : State) (img : MonoImage)
      → HoldsRegions
      → IsImage img
      → (save_image fl s img.width img.height img.bits).1 ≡ true
      → (load_image fl (save_image fl s img.width img.height img.bits).0 ≡ some (encode img))
        × (decode (encode img) ≡ some img)
        × (load fl (save_image fl s img.width img.height img.bits).0 ≡ load fl s)
  unfolding load save_image load_image
  load_image-save_image s img room v ok = (
    load_rec-save_rec fl s image_offset max_image image_region (size_bytes img) img.bits
          (omega arith) (omega arith) (omega arith) (omega arith) (omega arith) (omega arith) ok
        ∙ ap some (whole img v),
    rw (← append-nil (encode img)) (decode-encode img [] v),
    same_load_rec region_offset max_data region_size _ s
        (λ c n lo hi.
          save_rec_outside s image_offset max_image (size_bytes img) img.bits c n (omega arith) ok
            (inl (omega arith)))
        (omega arith),
  )

  -- After `clear_image` succeeded no image is loaded, and the content is as it was.
  pub load_image-clear_image :
      (s : State)
      → HoldsRegions
      → (clear_image fl s).1 ≡ true
      → (load_image fl (clear_image fl s).0 ≡ none) × (load fl (clear_image fl s).0 ≡ load fl s)
  unfolding load load_image clear_image
  load_image-clear_image s room ok = (
    load_rec_of_read _ image_offset max_image image_region (replicate 8 0xFF) (
          read_cells _ image_offset 8 (omega arith)
          ∙ ap some (cells-write fl s image_offset (replicate 8 0xFF) ok))
        ∙ (unfold load_checked in refl),
    same_load_rec region_offset max_data region_size _ s
        (λ c n lo hi.
          cells-write_outside fl s image_offset (replicate 8 0xFF) c n ok (inl (omega arith)))
        (omega arith),
  )
