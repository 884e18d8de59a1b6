-- ===== src/Tests/Store.antt =====
-- The records in a flash memory whose operations succeed.
use paper_name_plate.Base.{ℕ, ◌+◌, ◌-◌, ◌≤◌, ◌<◌, ◌≡◌, ◌⊎◌, refl, arith, List, [], ◌∷◌}
use paper_name_plate.Base.{true, ◌&&◌, some, ltb, leb, if◌then◌else◌, length, get_or}
use paper_name_plate.Plate.Image.{encode, decode}
use paper_name_plate.Storage.Flash.{Flash, cells}
use paper_name_plate.Storage.Record.{load, save, load_image, save_image}
use paper_name_plate.Storage.Record.Regions.{load-save, load_image-save_image}
use paper_name_plate.Tests.Data.{checks, checks-IsImage}

abbrev pub put_bytes : (ℕ → ℕ) → ℕ → List ℕ → ℕ → ℕ
put_bytes s a bs b = if leb a b && ltb b (a + length bs) then get_or bs (b - a) 0 else s b

pub put_bytes_inside :
    (s : ℕ → ℕ) (a : ℕ) (bs : List ℕ) (k : ℕ)
    → k < length bs
    → put_bytes s a bs (a + k) ≡ get_or bs k 0
put_bytes_inside s a bs k h = let e : a + k - a ≡ k = omega arith in ground (arith, e)

pub put_bytes_outside :
    (s : ℕ → ℕ) (a : ℕ) (bs : List ℕ) (b : ℕ)
    → (b < a) ⊎ (a + length bs ≤ b)
    → put_bytes s a bs b ≡ s b
put_bytes_outside s a bs b h = ground arith

abbrev pub ram : Flash
ram = record {
  State = ℕ → ℕ;
  size = 0x1000000;
  cell = λ s. s;
  read = λ s a n. some (cells s a n);
  write = λ s a bs. (put_bytes s a bs, true);
  read_cells = λ s a n h. refl;
  write_inside = λ s a bs k ok h. put_bytes_inside s a bs k h;
  write_outside = λ s a bs b ok h. put_bytes_outside s a bs b h;
}

abbrev pub erased : ℕ → ℕ
erased a = 0xFF

load-save_example :
    (load ram (save ram erased (1 ∷ 2 ∷ [])).0 ≡ some (1 ∷ 2 ∷ []))
    × (load_image ram (save ram erased (1 ∷ 2 ∷ [])).0 ≡ load_image ram erased)
load-save_example =
    load-save ram erased (1 ∷ 2 ∷ []) (omega arith) (omega arith) (omega arith)
      (unfold save in refl)

load_image-save_image_example :
    (load_image ram (save_image ram erased 12 2 checks.bits).0 ≡ some (encode checks))
    × (decode (encode checks) ≡ some checks)
    × (load ram (save_image ram erased 12 2 checks.bits).0 ≡ load ram erased)
load_image-save_image_example =
    load_image-save_image ram erased checks (omega arith) checks-IsImage (unfold save_image in refl)
