-- ===== src/Text/Utf8.antt =====
-- `as_bytes` and `String::from_utf8_lossy`.
use paper_name_plate.Base.{ℕ, suc, ◌+◌, ◌-◌, ◌*◌, ◌/◌, ◌%◌, ◌≤◌, ◌<◌, ◌≡◌, refl, sym, ap, ◌∙◌}
use paper_name_plate.Base.{List, [], ◌∷◌, ◌++◌, ◌&&◌, ltb, leb, ◌==◌}
use paper_name_plate.Base.{if◌then◌else◌, length, All, append_assoc, arith}
use paper_name_plate.Base.{◌⊎◌, lt→ltb, le→ltb, All-append}
use native.Mathlib.Decide.{dec_lt}
use paper_name_plate.Base.Bytes.{IsByte}

-- The text is a list of Unicode scalar values.
abbrev pub Str : Type 0
Str = List ℕ

-- A scalar value is a code point that is no surrogate.
abbrev pub IsScalar : ℕ → Type 0
IsScalar c = (c < 0xD800) ⊎ ((0xE000 ≤ c) × (c < 0x110000))

unfoldable pub encode_char : ℕ → List ℕ
encode_char c =
    if ltb c 0x80
    then c ∷ []
    else if ltb c 0x800
    then (0xC0 + c / 64) ∷ (0x80 + c % 64) ∷ []
    else if ltb c 0x10000
    then (0xE0 + c / 4096) ∷ (0x80 + c / 64 % 64) ∷ (0x80 + c % 64) ∷ []
    else (0xF0 + c / 262144) ∷ (0x80 + c / 4096 % 64) ∷ (0x80 + c / 64 % 64) ∷ (0x80 + c % 64) ∷ []

-- `s.as_bytes()`
unfoldable pub as_bytes : Str → List ℕ
as_bytes [] = []
as_bytes (c ∷ s) = encode_char c ++ as_bytes s

-- `s.len()`, in bytes
abbrev pub str_len : Str → ℕ
str_len s = length (as_bytes s)

-- The decoder between two bytes: at a character's start, or with `need` more bytes to come, the
-- next of them between `lo` and `hi`.
pub data Decoder : Type 0 where
  start : Decoder
  more : (need acc lo hi : ℕ) → Decoder

unfoldable pub first_byte : ℕ → List ℕ × Decoder
first_byte b =
    if ltb b 0x80
    then (b ∷ [], start)
    else if ltb b 0xC2
    then (0xFFFD ∷ [], start)
    else if ltb b 0xE0
    then ([], more 0 (b - 0xC0) 0x80 0xBF)
    else if b == 0xE0
    then ([], more 1 0 0xA0 0xBF)
    else if b == 0xED
    then ([], more 1 0x0D 0x80 0x9F)
    else if ltb b 0xF0
    then ([], more 1 (b - 0xE0) 0x80 0xBF)
    else if b == 0xF0
    then ([], more 2 0 0x90 0xBF)
    else if ltb b 0xF4
    then ([], more 2 (b - 0xF0) 0x80 0xBF)
    else if b == 0xF4
    then ([], more 2 4 0x80 0x8F)
    else (0xFFFD ∷ [], start)

-- A byte that does not continue the character ends it as U+FFFD and starts the next one.
unfoldable pub next_byte : Decoder → ℕ → List ℕ × Decoder
unfolding first_byte
next_byte start b = first_byte b
next_byte (more need acc lo hi) b =
    if leb lo b && leb b hi
    then (if need == 0
        then ((acc * 64 + (b - 0x80)) ∷ [], start)
        else ([], more (need - 1) (acc * 64 + (b - 0x80)) 0x80 0xBF))
    else (0xFFFD ∷ (first_byte b).0, (first_byte b).1)

-- Input that ends inside a character ends it as U+FFFD.
abbrev at_end : Decoder → Str
at_end start = []
at_end (more need acc lo hi) = 0xFFFD ∷ []

unfoldable pub decode_from : Decoder → List ℕ → Str
unfolding next_byte
decode_from d [] = at_end d
decode_from d (b ∷ bs) = (next_byte d b).0 ++ decode_from (next_byte d b).1 bs

-- `String::from_utf8_lossy(bytes)`
unfoldable pub from_utf8_lossy : List ℕ → Str
unfolding decode_from
from_utf8_lossy bs = decode_from start bs

pub as_bytes-append : (s t : Str) → as_bytes (s ++ t) ≡ as_bytes s ++ as_bytes t
unfolding as_bytes
as_bytes-append [] t = refl
as_bytes-append (c ∷ s) t =
    ap (λ r. encode_char c ++ r) (as_bytes-append s t)
    ∙ sym (append_assoc (encode_char c) (as_bytes s) (as_bytes t))

decode_ascii :
    (c : ℕ) (bs : List ℕ) → c < 0x80 → decode_from start (c ∷ bs) ≡ c ∷ decode_from start bs
unfolding decode_from
decode_ascii c bs h = ground arith

decode_two :
    (a b : ℕ) (bs : List ℕ)
    → 2 ≤ a
    → a < 32
    → b < 64
    → decode_from start ((0xC0 + a) ∷ (0x80 + b) ∷ bs) ≡ (a * 64 + b) ∷ decode_from start bs
unfolding decode_from
decode_two a b bs h k l = ground arith

continue_byte :
    (need acc lo hi b : ℕ)
    → lo ≤ b
    → b ≤ hi
    → next_byte (more (suc need) acc lo hi) b ≡ ([], more need (acc * 64 + (b - 0x80)) 0x80 0xBF)
unfolding next_byte
continue_byte need acc lo hi b h k = ground arith

last_byte :
    (acc lo hi b : ℕ)
    → lo ≤ b
    → b ≤ hi
    → next_byte (more 0 acc lo hi) b ≡ ((acc * 64 + (b - 0x80)) ∷ [], start)
unfolding next_byte
last_byte acc lo hi b h k = ground arith

-- The range of a second byte, by the first one's payload.
lo_three : ℕ → ℕ
lo_three a = if a == 0 then 0xA0 else 0x80

hi_three : ℕ → ℕ
hi_three a = if a == 13 then 0x9F else 0xBF

lo_four : ℕ → ℕ
lo_four a = if a == 0 then 0x90 else 0x80

hi_four : ℕ → ℕ
hi_four a = if a == 4 then 0x8F else 0xBF

first_of_three :
    (a : ℕ) → a < 16 → next_byte start (0xE0 + a) ≡ ([], more 1 a (lo_three a) (hi_three a))
unfolding next_byte lo_three hi_three
first_of_three a h = ground arith

first_of_four :
    (a : ℕ) → a < 5 → next_byte start (0xF0 + a) ≡ ([], more 2 a (lo_four a) (hi_four a))
unfolding next_byte lo_four hi_four
first_of_four a h = ground arith

decode_step :
    (d e : Decoder) (out : Str) (b : ℕ) (bs : List ℕ)
    → next_byte d b ≡ (out, e)
    → decode_from d (b ∷ bs) ≡ out ++ decode_from e bs
unfolding decode_from
decode_step d e out b bs h = rw h

decode_three :
    (a b c : ℕ) (bs : List ℕ)
    → a < 16
    → b < 64
    → c < 64
    → lo_three a ≤ 0x80 + b
    → 0x80 + b ≤ hi_three a
    → decode_from start ((0xE0 + a) ∷ (0x80 + b) ∷ (0x80 + c) ∷ bs)
      ≡ (a * 4096 + b * 64 + c) ∷ decode_from start bs
decode_three a b c bs ha hb hc lo hi =
    decode_step _ _ _ _ _ (first_of_three a ha)
    ∙ decode_step _ _ _ _ _ (continue_byte 0 a (lo_three a) (hi_three a) (0x80 + b) lo hi)
    ∙ decode_step _ _ _ _ _
        (last_byte (a * 64 + (0x80 + b - 0x80)) 0x80 0xBF (0x80 + c) (omega arith) (omega arith))
    ∙ ap (λ n. n ∷ decode_from start bs) (omega arith)

decode_four :
    (a b c d : ℕ) (bs : List ℕ)
    → a < 5
    → b < 64
    → c < 64
    → d < 64
    → lo_four a ≤ 0x80 + b
    → 0x80 + b ≤ hi_four a
    → decode_from start ((0xF0 + a) ∷ (0x80 + b) ∷ (0x80 + c) ∷ (0x80 + d) ∷ bs)
      ≡ (a * 262144 + b * 4096 + c * 64 + d) ∷ decode_from start bs
decode_four a b c d bs ha hb hc hd lo hi =
    decode_step _ _ _ _ _ (first_of_four a ha)
    ∙ decode_step _ _ _ _ _ (continue_byte 1 a (lo_four a) (hi_four a) (0x80 + b) lo hi)
    ∙ decode_step _ _ _ _ _ (
        continue_byte 0 (a * 64 + (0x80 + b - 0x80)) 0x80 0xBF (0x80 + c) (omega arith)
          (omega arith))
    ∙ decode_step _ _ _ _ _ (
        last_byte ((a * 64 + (0x80 + b - 0x80)) * 64 + (0x80 + c - 0x80)) 0x80 0xBF (0x80 + d)
          (omega arith) (omega arith))
    ∙ ap (λ n. n ∷ decode_from start bs) (omega arith)

bounds_three :
    (c : ℕ)
    → IsScalar c
    → 0x800 ≤ c
    → c < 0x10000
    → (lo_three (c / 4096) ≤ 0x80 + c / 64 % 64) × (0x80 + c / 64 % 64 ≤ hi_three (c / 4096))
unfolding lo_three hi_three
bounds_three c h lo hi = ground arith

bounds_four :
    (c : ℕ)
    → 0x10000 ≤ c
    → c < 0x110000
    → (lo_four (c / 262144) ≤ 0x80 + c / 4096 % 64) × (0x80 + c / 4096 % 64 ≤ hi_four (c / 262144))
unfolding lo_four hi_four
bounds_four c lo hi = ground arith

-- Decoding what was encoded gives the character back, whatever follows.
decode-encode_char :
    (c : ℕ) (bs : List ℕ)
    → IsScalar c
    → decode_from start (encode_char c ++ bs) ≡ c ∷ decode_from start bs
unfolding encode_char
decode-encode_char c bs h = elim (dec_lt c 0x80) [
  | yes p ↦ rw (lt→ltb c 0x80 p) (decode_ascii c bs p)
  | no p ↦ rw (le→ltb c 0x80 (omega arith)) (elim (dec_lt c 0x800) [
    | yes q ↦ rw (lt→ltb c 0x800 q) (
        decode_two (c / 64) (c % 64) bs (omega arith) (omega arith) (omega arith)
        ∙ ap (λ n. n ∷ decode_from start bs) (omega arith))
    | no q ↦ rw (le→ltb c 0x800 (omega arith)) (elim (dec_lt c 0x10000) [
      | yes r ↦ rw (lt→ltb c 0x10000 r) (
          decode_three (c / 4096) (c / 64 % 64) (c % 64) bs (omega arith) (omega arith)
            (omega arith) (bounds_three c h (omega arith) r).0 (bounds_three c h (omega arith) r).1
          ∙ ap (λ n. n ∷ decode_from start bs) (omega arith))
      | no r ↦ rw (le→ltb c 0x10000 (omega arith)) (
          decode_four (c / 262144) (c / 4096 % 64) (c / 64 % 64) (c % 64) bs (omega arith)
            (omega arith) (omega arith) (omega arith) (bounds_four c (omega arith) (omega arith)).0
            (bounds_four c (omega arith) (omega arith)).1
          ∙ ap (λ n. n ∷ decode_from start bs) (omega arith))
    ])
  ])
]

encode_char-IsByte : (c : ℕ) → IsScalar c → All IsByte (encode_char c)
unfolding encode_char
encode_char-IsByte c h = ground arith

-- `from_utf8_lossy` reads back the bytes of a text.
pub from_utf8_lossy-as_bytes : (s : Str) → All IsScalar s → from_utf8_lossy (as_bytes s) ≡ s
unfolding from_utf8_lossy as_bytes
from_utf8_lossy-as_bytes [] h = refl
from_utf8_lossy-as_bytes (c ∷ s) h =
    decode-encode_char c (as_bytes s) h.0 ∙ ap (λ r. c ∷ r) (from_utf8_lossy-as_bytes s h.1)

pub as_bytes-IsByte : (s : Str) → All IsScalar s → All IsByte (as_bytes s)
unfolding as_bytes
as_bytes-IsByte [] h = tt
as_bytes-IsByte (c ∷ s) h =
    All-append IsByte (encode_char c) (as_bytes s) (encode_char-IsByte c h.0)
      (as_bytes-IsByte s h.1)
