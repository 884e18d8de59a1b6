-- ===== src/Panel/FrameBuffer/Pixels.antt =====
-- What `set_pixel` does to every pixel of the panel.
use paper_name_plate.Base.{
  ℕ, zero, suc, ◌+◌, ◌*◌, ◌/◌, ◌%◌, ◌≤◌, ◌<◌, ◌≡◌, ◌≢◌, refl, sym, ap, ap₂, ◌∙◌, ◌⊎◌, inl, inr,
  arith,
}
use paper_name_plate.Base.{
  List, [], ◌∷◌, Bool, false, ◌&&◌, some, All, length, get_or, set, get_elem?,
}
use paper_name_plate.Base.{
  bit_or, ◌==◌, if◌then◌else◌, get_or-set_self, get_or-set_ne, length-set, eq→==, replicate,
  length-replicate,
}
use paper_name_plate.Base.Int.{ℤ, pos, negsuc}
use paper_name_plate.Base.Bytes.{IsByte, get_or-IsByte}
use paper_name_plate.Panel.FrameBuffer.{FrameBuffer, new, locate, put, put_bit, has_bit, to_u8}
use paper_name_plate.Panel.FrameBuffer.{ram_x, ram_y, read_level, set_pixel, get_pixel, plane_bytes}
use paper_name_plate.Panel.FrameBuffer.Bits.{
  mask, has_bit-put_self, has_bit-put_other, put_bit-lt, level_bits,
}
use native.Mathlib.Decide.{dec_lt, ℕ_discrete}

-- Both planes are whole.
pub record IsFrame (fb : FrameBuffer) : Type 0 where
  pub lsb_whole : length fb.lsb ≡ plane_bytes
  pub msb_whole : length fb.msb ≡ plane_bytes
  pub lsb_bytes : All IsByte fb.lsb
  pub msb_bytes : All IsByte fb.msb

module _ {ℓ} {A : Type ℓ} where
  get_elem?-get_or :
      (xs : List A) (i : ℕ) (d : A) → i < length xs → get_elem? xs i ≡ some (get_or xs i d)
  get_elem?-get_or [] i d h = absurd (omega arith)
  get_elem?-get_or (x ∷ xs) zero d h = refl
  get_elem?-get_or (x ∷ xs) (suc i) d h = get_elem?-get_or xs i d (omega arith)

set-IsByte : (xs : List ℕ) (i v : ℕ) → v < 256 → All IsByte xs → All IsByte (set xs i v)
set-IsByte [] i v h a = a
set-IsByte (x ∷ xs) zero v h a = (h, a.1)
set-IsByte (x ∷ xs) (suc i) v h a = (a.0, set-IsByte xs i v h a.1)

-- The bit of a plane at a place.
abbrev plane_bit : List ℕ → ℕ × ℕ → Bool
plane_bit plane (idx, bit) = has_bit (get_or plane idx 0) bit

abbrev place : ℕ → ℕ → ℕ × ℕ
place c r = (c * 100 + r / 8, mask (r % 8))

plane_bit-put_self :
    (plane : List ℕ) (c r : ℕ) (on : Bool)
    → All IsByte plane
    → c * 100 + r / 8 < length plane
    → plane_bit (put plane (place c r) on) (place c r) ≡ on
plane_bit-put_self plane c r on b h =
    let i = c * 100 + r / 8 in
    rw (get_or-set_self plane i (put_bit (get_or plane i 0) (mask (r % 8)) on) 0 h)
      (has_bit-put_self (get_or plane i 0) (r % 8) on (get_or-IsByte plane i b) (omega arith))

plane_bit-put_other :
    (plane : List ℕ) (c r d s : ℕ) (on : Bool)
    → All IsByte plane
    → c * 100 + r / 8 < length plane
    → r < 800
    → s < 800
    → (c ≢ d) ⊎ (r ≢ s)
    → plane_bit (put plane (place c r) on) (place d s) ≡ plane_bit plane (place d s)
plane_bit-put_other plane c r d s on b h p q n =
    let i = c * 100 + r / 8 in
    let j = d * 100 + s / 8 in
    elim (ℕ_discrete i j) [
      | yes e ↦
          rw (← e, get_or-set_self plane i (put_bit (get_or plane i 0) (mask (r % 8)) on) 0 h)
            (has_bit-put_other (get_or plane i 0) (r % 8) (s % 8) on (get_or-IsByte plane i b)
              (omega arith) (omega arith)
              (λ t. elim n [ inl m ↦ m (omega arith) | inr m ↦ m (omega arith) ]))
      | no ne ↦ rw (get_or-set_ne plane i j (put_bit (get_or plane i 0) (mask (r % 8)) on) 0 ne)
    ]

-- The level that a pair of planes holds at a place.
abbrev level_at : List ℕ → List ℕ → ℕ × ℕ → ℕ
level_at lsb msb p = bit_or (to_u8 (plane_bit lsb p)) (to_u8 (plane_bit msb p) * 2)

pub get_pixel_lem :
    (fb : FrameBuffer) (x y : ℕ)
    → length fb.lsb ≡ plane_bytes
    → length fb.msb ≡ plane_bytes
    → x < 480
    → y < 800
    → get_pixel fb x y
      ≡ some (level_at fb.lsb fb.msb (place (ram_x fb.orientation x) (ram_y fb.orientation y)))
unfolding get_pixel locate read_level
get_pixel_lem fb x y l m p q =
    let o = fb.orientation in
    let i = ram_x o x * 100 + ram_y o y / 8 in
    let inside : i < plane_bytes = ground arith in
    ground (arith, get_elem?-get_or fb.lsb i 0, get_elem?-get_or fb.msb i 0)

-- Does a call with these coordinates mean the pixel (x, y)?
abbrev pub hits : ℤ → ℤ → ℕ → ℕ → Bool
hits (pos a) (pos b) x y = a == x && b == y
hits (pos a) (negsuc b) x y = false
hits (negsuc a) q x y = false

set_pixel_inside :
    (fb : FrameBuffer) (a b level : ℕ)
    → a < 480
    → b < 800
    → let p = place (ram_x fb.orientation a) (ram_y fb.orientation b) in
      set_pixel fb (pos a) (pos b) level
      ≡ record fb { lsb = put fb.lsb p (has_bit level 1); msb = put fb.msb p (has_bit level 2) }
unfolding set_pixel locate
set_pixel_inside fb a b level h k = ground arith

set_pixel_outside :
    (fb : FrameBuffer) (a b level : ℕ)
    → (480 ≤ a) ⊎ (800 ≤ b)
    → set_pixel fb (pos a) (pos b) level ≡ fb
unfolding set_pixel
set_pixel_outside fb a b level h = ground arith

module _ (fb : FrameBuffer) (v : IsFrame fb) where
  abbrev at : ℕ → ℕ → ℕ × ℕ
  at x y = place (ram_x fb.orientation x) (ram_y fb.orientation y)

  abbrev drawn : ℕ → ℕ → ℕ → FrameBuffer
  drawn a b level = record fb {
    lsb = put fb.lsb (at a b) (has_bit level 1);
    msb = put fb.msb (at a b) (has_bit level 2);
  }

  index-lt :
      (plane : List ℕ) (a b : ℕ)
      → length plane ≡ plane_bytes
      → a < 480
      → b < 800
      → ram_x fb.orientation a * 100 + ram_y fb.orientation b / 8 < length plane
  index-lt plane a b l h k = ground arith

  drawn_self :
      (a b level : ℕ)
      → a < 480
      → b < 800
      → level < 256
      → get_pixel (drawn a b level) a b ≡ some (level % 4)
  drawn_self a b level h k w =
      get_pixel_lem (drawn a b level) a b (length-set fb.lsb _ _ ∙ v.lsb_whole)
        (length-set fb.msb _ _ ∙ v.msb_whole) h k
      ∙ ap₂ (λ l m. some (bit_or (to_u8 l) (to_u8 m * 2)))
          (plane_bit-put_self fb.lsb _ _ (has_bit level 1) v.lsb_bytes
            (index-lt fb.lsb a b v.lsb_whole h k))
          (plane_bit-put_self fb.msb _ _ (has_bit level 2) v.msb_bytes
            (index-lt fb.msb a b v.msb_whole h k))
      ∙ ap some (level_bits level w)

  drawn_other :
      (a b x y level : ℕ)
      → a < 480
      → b < 800
      → x < 480
      → y < 800
      → (a ≢ x) ⊎ (b ≢ y)
      → get_pixel (drawn a b level) x y ≡ get_pixel fb x y
  drawn_other a b x y level h k p q n =
      get_pixel_lem (drawn a b level) x y (length-set fb.lsb _ _ ∙ v.lsb_whole)
        (length-set fb.msb _ _ ∙ v.msb_whole) p q
      ∙ ap₂ (λ l m. some (bit_or (to_u8 l) (to_u8 m * 2)))
          (other fb.lsb (has_bit level 1) v.lsb_bytes (index-lt fb.lsb a b v.lsb_whole h k))
          (other fb.msb (has_bit level 2) v.msb_bytes (index-lt fb.msb a b v.msb_whole h k))
      ∙ sym (get_pixel_lem fb x y v.lsb_whole v.msb_whole p q)
    where
      apart :
          (ram_x fb.orientation a ≢ ram_x fb.orientation x)
          ⊎ (ram_y fb.orientation b ≢ ram_y fb.orientation y)
      apart = ground arith

      other :
          (plane : List ℕ) (on : Bool)
          → All IsByte plane
          → ram_x fb.orientation a * 100 + ram_y fb.orientation b / 8 < length plane
          → plane_bit (put plane (at a b) on) (at x y) ≡ plane_bit plane (at x y)
      other plane on c i =
          plane_bit-put_other plane _ _ _ _ on c i (ground arith) (ground arith) apart

  inside :
      (a b x y level : ℕ)
      → a < 480
      → b < 800
      → x < 480
      → y < 800
      → level < 256
      → get_pixel (drawn a b level) x y
        ≡ (if a == x && b == y then some (level % 4) else get_pixel fb x y)
  inside a b x y level h k p q w = elim (ℕ_discrete a x) [
    | yes e ↦ elim (ℕ_discrete b y) [
      | yes f ↦ rw (← e, ← f, eq→== a a refl, eq→== b b refl) (drawn_self a b level h k w)
      | no f ↦ ground (arith, drawn_other a b x y level h k p q (inr f))
    ]
    | no e ↦ ground (arith, drawn_other a b x y level h k p q (inl e))
  ]

  outside :
      (a b x y level : ℕ)
      → (480 ≤ a) ⊎ (800 ≤ b)
      → x < 480
      → y < 800
      → get_pixel (set_pixel fb (pos a) (pos b) level) x y
        ≡ (if a == x && b == y then some (level % 4) else get_pixel fb x y)
  outside a b x y level h p q = rw (set_pixel_outside fb a b level h) (ground arith)

  -- `set_pixel` sets the pixel that its coordinates mean to the low two bits of the level, under
  -- either flip, and leaves every other pixel of the panel as it was; with coordinates outside the
  -- panel, negative ones too, it changes no pixel.
  pub get_pixel-set_pixel :
      (p q : ℤ) (level x y : ℕ)
      → level < 256
      → x < 480
      → y < 800
      → get_pixel (set_pixel fb p q level) x y
        ≡ (if hits p q x y then some (level % 4) else get_pixel fb x y)
  get_pixel-set_pixel (pos a) (pos b) level x y w h k = elim (dec_lt a 480) [
    | yes p ↦ elim (dec_lt b 800) [
      | yes q ↦ rw (set_pixel_inside fb a b level p q) (inside a b x y level p q h k w)
      | no q ↦ outside a b x y level (inr (omega arith)) h k
    ]
    | no p ↦ outside a b x y level (inl (omega arith)) h k
  ]
  get_pixel-set_pixel (pos a) (negsuc b) level x y w h k = unfold set_pixel in refl
  get_pixel-set_pixel (negsuc a) q level x y w h k = unfold set_pixel in refl

-- `set_pixel` keeps both planes whole.
pub set_pixel-IsFrame :
    (fb : FrameBuffer) (p q : ℤ) (level : ℕ) → IsFrame fb → IsFrame (set_pixel fb p q level)
set_pixel-IsFrame fb (pos a) (pos b) level v = elim (dec_lt a 480) [
  | yes p ↦ elim (dec_lt b 800) [
    | yes q ↦ rw (set_pixel_inside fb a b level p q) (record {
      lsb_whole = length-set fb.lsb _ _ ∙ v.lsb_whole;
      msb_whole = length-set fb.msb _ _ ∙ v.msb_whole;
      lsb_bytes = whole fb.lsb (has_bit level 1) v.lsb_bytes;
      msb_bytes = whole fb.msb (has_bit level 2) v.msb_bytes;
    })
    | no q ↦ rw (set_pixel_outside fb a b level (inr (omega arith))) v
  ]
  | no p ↦ rw (set_pixel_outside fb a b level (inl (omega arith))) v
]
  where
    whole :
        (plane : List ℕ) (on : Bool)
        → All IsByte plane
        → All IsByte (put plane (place (ram_x fb.orientation a) (ram_y fb.orientation b)) on)
    whole plane on h =
        set-IsByte plane _ _ (put_bit-lt _ _ on (get_or-IsByte plane _ h) (omega arith)) h
set_pixel-IsFrame fb (pos a) (negsuc b) level v = unfold set_pixel in v
set_pixel-IsFrame fb (negsuc a) q level v = unfold set_pixel in v

replicate-IsByte : (n b : ℕ) → b < 256 → All IsByte (replicate n b)
replicate-IsByte zero b h = tt
replicate-IsByte (suc n) b h = (h, replicate-IsByte n b h)

pub new-IsFrame : IsFrame new
unfolding new
new-IsFrame = record {
  lsb_whole = length-replicate {A = ℕ} plane_bytes 0xFF;
  msb_whole = length-replicate {A = ℕ} plane_bytes 0xFF;
  lsb_bytes = replicate-IsByte plane_bytes 0xFF (omega arith);
  msb_bytes = replicate-IsByte plane_bytes 0xFF (omega arith);
}
