-- ===== src/Plate/Image/Codec.antt =====
-- The encoding of images: what `decode` accepts, and its round trips with `encode`.
use paper_name_plate.Base.{ℕ, ◌+◌, ◌*◌, ◌≤◌, ◌<◌, ◌≡◌, refl, sym, subst, ap, ap₂, ◌∙◌, arith}
use paper_name_plate.Base.{List, ◌++◌, some}
use paper_name_plate.Base.{length, length-append, length-take, length-drop, take, drop}
use paper_name_plate.Base.{take-append_self, get_range?-some, get_range?-none}
use paper_name_plate.Plate.Image.{
  MonoImage, row_bytes, row_bytes_of, payload_width, payload_height, decode, decode_owned, encode,
}
use native.Mathlib.Decide.{dec_le}

-- An image that fits the panel, with all its rows.
pub record IsImage (i : MonoImage) : Type 0 where
  pub wide : 1 ≤ i.width
  pub width_fits : i.width ≤ 480
  pub high : 1 ≤ i.height
  pub height_fits : i.height ≤ 800
  pub rows : length i.bits ≡ row_bytes i * i.height

panel_bytes : (r h : ℕ) → r ≤ 60 → h ≤ 800 → r * h ≤ 48000
panel_bytes r h p q = grind arith

-- The rows of an image that fits the panel take 48000 bytes at most.
pub length-bits : (i : MonoImage) → IsImage i → length i.bits ≤ 48000
length-bits i h =
    omega (arith, h.rows, panel_bytes (row_bytes i) i.height (omega arith) h.height_fits)

-- The size that the header of `p` announces.
abbrev pub needs : List ℕ → ℕ
needs p = row_bytes_of (payload_width p) * payload_height p

abbrev pub Announces : List ℕ → Type 0
Announces p =
    (4 ≤ length p)
    × (1 ≤ payload_width p)
    × (payload_width p ≤ 480)
    × (1 ≤ payload_height p)
    × (payload_height p ≤ 800)

abbrev pub announced : List ℕ → MonoImage
announced p = record {
  width = payload_width p;
  height = payload_height p;
  bits = take (needs p) (drop 4 p);
}

decode-some : (p : List ℕ) → Announces p → 4 + needs p ≤ length p → decode p ≡ some (announced p)
unfolding decode
decode-some p h k = ground (arith, get_range?-some p 4 (needs p) k)

-- Whatever `decode` returns is announced by the header and there in full.
pub decode-inv :
    (p : List ℕ) (i : MonoImage)
    → decode p ≡ some i
    → Announces p × (4 + needs p ≤ length p) × (i ≡ announced p)
unfolding decode
decode-inv p i e = elim (dec_le (4 + needs p) (length p)) [
  | yes h ↦ ground (arith, get_range?-some p 4 (needs p) h)
  | no h ↦ ground (arith, get_range?-none p 4 (needs p))
]

-- `decode_owned` is `decode`, on every payload.
pub decode_owned-eq-decode : (p : List ℕ) → decode_owned p ≡ decode p
unfolding decode decode_owned
decode_owned-eq-decode p = elim (dec_le (4 + needs p) (length p)) [
  | yes h ↦ ground (arith, get_range?-some p 4 (needs p) h)
  | no h ↦ ground (arith, get_range?-none p 4 (needs p))
]

-- What `decode` accepts fits the panel and has all its rows.
pub decode-IsImage : (p : List ℕ) (i : MonoImage) → decode p ≡ some i → IsImage i
decode-IsImage p i e =
    let (a, k, q) = decode-inv p i e in
    subst IsImage (sym q) (record {
      wide = a.1;
      width_fits = a.2;
      high = a.3;
      height_fits = a.4;
      rows = length-take (needs p) (drop 4 p) ∙ omega (arith, length-drop 4 p);
    })

payload_width-encode :
    (i : MonoImage) (rest : List ℕ) → i.width < 65536 → payload_width (encode i ++ rest) ≡ i.width
unfolding encode
payload_width-encode i rest h = omega arith

payload_height-encode :
    (i : MonoImage) (rest : List ℕ)
    → i.height < 65536
    → payload_height (encode i ++ rest) ≡ i.height
unfolding encode
payload_height-encode i rest h = omega arith

needs-encode :
    (i : MonoImage) (rest : List ℕ) → IsImage i → needs (encode i ++ rest) ≡ length i.bits
needs-encode i rest h =
    ap₂ (λ w k. row_bytes_of w * k) (payload_width-encode i rest (omega arith))
      (payload_height-encode i rest (omega arith))
    ∙ sym h.rows

length-encode : (i : MonoImage) → length (encode i) ≡ 4 + length i.bits
unfolding encode
length-encode i = omega arith

announced-encode : (i : MonoImage) (rest : List ℕ) → IsImage i → announced (encode i ++ rest) ≡ i
announced-encode i rest h = λ t. record {
  width = payload_width-encode i rest (omega arith) t;
  height = payload_height-encode i rest (omega arith) t;
  bits = bits_back t;
}
  where
    bits_back : take (needs (encode i ++ rest)) (drop 4 (encode i ++ rest)) ≡ i.bits
    bits_back = rw (needs-encode i rest h) (unfold encode in take-append_self i.bits rest _ refl)

-- `decode` reads back what `encode` wrote of an image that fits the panel, whatever bytes follow it.
pub decode-encode : (i : MonoImage) (rest : List ℕ) → IsImage i → decode (encode i ++ rest) ≡ some i
decode-encode i rest h =
    decode-some (encode i ++ rest)
      (omega (
        arith,
        payload_width-encode i rest,
        payload_height-encode i rest,
        length-append (encode i) rest,
        length-encode i,
      ))
      (omega (arith, needs-encode i rest h, length-append (encode i) rest, length-encode i))
    ∙ ap some (announced-encode i rest h)
