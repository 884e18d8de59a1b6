-- ===== src/Plate/Base64.antt =====
-- `b64_decode` of app/plate.rs.
use paper_name_plate.Base.{ℕ, ◌+◌, ◌-◌, ◌*◌, ◌/◌, ◌%◌, ◌^◌, List, [], ◌∷◌, ◌++◌, Bool, ◌&&◌, ◌||◌}
use paper_name_plate.Base.{Option, none, some, leb, ◌==◌, if◌then◌else◌, bit_or, ◌≡◌, refl}

-- `val`: the six bits that a character stands for
unfoldable pub val : ℕ → Option ℕ
val c =
    if leb b'A' c && leb c b'Z'
    then some (c - b'A')
    else if leb b'a' c && leb c b'z'
    then some (c - b'a' + 26)
    else if leb b'0' c && leb c b'9'
    then some (c - b'0' + 52)
    else if c == b'+'
    then some 62
    else if c == b'/'
    then some 63
    else none

-- `c.is_ascii_whitespace() || c == b'='`
abbrev pub is_skipped : ℕ → Bool
is_skipped c = c == 0x20 || (c == 0x09 || (c == 0x0A || (c == 0x0C || (c == 0x0D || c == b'='))))

-- What the loop leaves of an incomplete group of `n` characters.
unfoldable pub finish : ℕ → ℕ → List ℕ → Option (List ℕ)
finish acc n out =
    if n == 0
    then some out
    else if n == 2
    then some (out ++ (acc / 16 % 256 ∷ []))
    else if n == 3
    then some (out ++ (acc / 1024 % 256 ∷ acc / 4 % 256 ∷ []))
    else none

-- The loop: `acc` has the bits of the `n` characters of the group so far. `acc << 6` is empty in its
-- low six bits.
unfoldable pub decode_from : List ℕ → ℕ → ℕ → List ℕ → Option (List ℕ)
unfolding val finish
decode_from [] acc n out = finish acc n out
decode_from (c ∷ s) acc n out =
    let skipped = decode_from s acc n out in
    let more = λ (v : ℕ). decode_from s (bit_or (acc * 64 % 2 ^ 32) v) (n + 1) out in
    let group = λ (v : ℕ).
      let all = bit_or (acc * 64 % 2 ^ 32) v in
      decode_from s 0 0 (out ++ (all / 65536 % 256 ∷ all / 256 % 256 ∷ all % 256 ∷ [])) in
    if is_skipped c
    then skipped
    else elim (val c) [ none ↦ none | some v ↦ if n + 1 == 4 then group v else more v ]

unfoldable pub b64_decode : List ℕ → Option (List ℕ)
unfolding decode_from
b64_decode s = decode_from s 0 0 []

hello :
    b64_decode (b'S' ∷ b'G' ∷ b'k' ∷ b'h' ∷ b'I' ∷ b'Q' ∷ b'=' ∷ b'=' ∷ [])
    ≡ some (b'H' ∷ b'i' ∷ b'!' ∷ b'!' ∷ [])
unfolding b64_decode
hello = refl
