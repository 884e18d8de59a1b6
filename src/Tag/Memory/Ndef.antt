-- ===== src/Tag/Memory/Ndef.antt =====
-- The NDEF message in the tag's memory: what `set_ndef` stores, `ndef` finds.
use paper_name_plate.Base.{ℕ, zero, suc, ◌+◌, ◌-◌, ◌≤◌, ◌<◌, ◌≡◌, ◌≢◌, refl, ap, ◌∙◌, arith}
use paper_name_plate.Base.{List, [], ◌∷◌, ◌++◌, true, false, some, length, get_or}
use paper_name_plate.Base.{
  Option-cases, inl, inr, ltb, if◌then◌else◌, replicate, write_at, lt→ltb, le→ltb, set,
  write_at-append, read-write_at, take?-append, length-append, length-replicate, append_assoc,
}
use paper_name_plate.Base.Bytes.{u16_be_bytes}
use native.Mathlib.Decide.{dec_lt, dec_le}
use paper_name_plate.Base.{◌⊎◌, get_range?, get_or-write_at_out, length-write_at}
use paper_name_plate.Tag.Memory.{Scan, found, stuck, set_ndef, store_ndef, tlv_header, ndef}
use paper_name_plate.Tag.Memory.{scan, scan_tlv, tlv_length, write_length, user_area, mem_bytes}

tlv_length-header : (user : List ℕ) (i len hdr : ℕ) → tlv_length user i ≡ some (len, hdr) → 1 ≤ hdr
unfolding tlv_length
tlv_length-header user i len hdr e = ground arith

scan_tlv-ne-stuck :
    (user : List ℕ) (i t : ℕ) (next : ℕ → Scan)
    → ((k : ℕ) → suc i ≤ k → next k ≢ stuck)
    → scan_tlv user i t next ≢ stuck
unfolding scan_tlv
scan_tlv-ne-stuck user i t next h = elim (Option-cases (tlv_length user i)) [
  | inl e ↦ ground arith
  | inr ((len, hdr), e) ↦ ground (arith, tlv_length-header user i len hdr e, h (i + (hdr + len)))
]

scan-ne-stuck :
    (fuel : ℕ) (user : List ℕ) (i : ℕ) → length user ≤ i + fuel → scan fuel user i ≢ stuck
unfolding scan
scan-ne-stuck zero user i h = ground arith
scan-ne-stuck (suc fuel) user i h = ground (
  arith,
  scan-ne-stuck fuel user (i + 1),
  scan_tlv-ne-stuck user i (get_or user i 0) (scan fuel user)
      (λ k p. scan-ne-stuck fuel user k (omega arith)),
)

-- The loop of `ndef` ends on every memory.
pub ndef-ne-stuck : (m : List ℕ) → ndef m ≢ stuck
unfolding ndef
ndef-ne-stuck m = scan-ne-stuck (length (user_area m)) (user_area m) 0 (omega arith)

-- The TLV of a message, and the end of the user area behind it.
abbrev pub length_field : ℕ → List ℕ
length_field len = if ltb len 0xFF then len ∷ [] else 0xFF ∷ u16_be_bytes len

abbrev padding : List ℕ → List ℕ
padding msg = 0xFE ∷ replicate (904 - (16 + tlv_header (length msg) + length msg + 1)) 0

abbrev pub tlv : List ℕ → List ℕ
tlv msg = 0x03 ∷ (length_field (length msg) ++ (msg ++ padding msg))

length_field-length : (len : ℕ) → length (length_field len) + 1 ≡ tlv_header len
length_field-length len = ground arith

write_length-eq-write_at :
    (m : List ℕ) (i len : ℕ) → write_length m i len ≡ write_at m i (length_field len)
write_length-eq-write_at m i len = elim (dec_lt len 0xFF) [
  | yes p ↦ rw (lt→ltb len 0xFF p) (ap (λ k. set m i k) (omega arith))
  | no p ↦
      rw (le→ltb len 0xFF (omega arith))
        (ap (λ k. write_at (set m i 0xFF) k (u16_be_bytes len)) (omega arith))
]

-- The writes of `set_ndef` put the TLV at the start of the user area.
store_ndef-tlv : (m msg : List ℕ) → store_ndef m msg ≡ write_at m 16 (tlv msg)
unfolding store_ndef
store_ndef-tlv m msg =
    ap (λ x. write_at (set (write_at x i msg) j 0xFE) (j + 1) zeros)
      (write_length-eq-write_at (set m 16 0x03) 17 n)
    ∙ ap (λ x. write_at (set x j 0xFE) (j + 1) zeros)
        (write_at-append (0x03 ∷ length_field n) msg m 16 i (omega (arith, length_field-length n)))
    ∙ write_at-append (0xFE ∷ []) zeros (write_at m 16 front) j (j + 1) (omega arith)
    ∙ write_at-append front (0xFE ∷ zeros) m 16 j
        (omega (arith, length_field-length n, length-append (length_field n) msg))
    ∙ ap (λ x. write_at m 16 (0x03 ∷ x)) (append_assoc (length_field n) msg (0xFE ∷ zeros))
  where
    n : ℕ
    n = length msg

    i : ℕ
    i = 16 + tlv_header n

    j : ℕ
    j = i + n

    zeros : List ℕ
    zeros = replicate (904 - (j + 1)) 0

    front : List ℕ
    front = 0x03 ∷ (length_field n ++ msg)

abbrev pub FitsTag : List ℕ → Type 0
FitsTag msg = tlv_header (length msg) + length msg + 1 ≤ 888

length-tlv : (msg : List ℕ) → FitsTag msg → length (tlv msg) ≡ 888
length-tlv msg h = omega (
  arith,
  length-append {0} (length_field (length msg)),
  length-append {0} msg,
  length_field-length (length msg),
  length-replicate (904 - (16 + tlv_header (length msg) + length msg + 1)) (let z : ℕ = 0 in z),
)

-- After `set_ndef` the user area is the TLV, then zeros.
user_area-store_ndef :
    (m msg : List ℕ) → length m ≡ mem_bytes → FitsTag msg → user_area (store_ndef m msg) ≡ tlv msg
user_area-store_ndef m msg l h =
    rw (store_ndef-tlv m msg)
      (rw (← length-tlv msg h) (read-write_at 16 (tlv msg) m (omega (arith, length-tlv msg h))))

tlv_length-short : (n : ℕ) (rest : List ℕ) → n < 0xFF → tlv_length (0x03 ∷ n ∷ rest) 0 ≡ some (n, 2)
unfolding tlv_length
tlv_length-short n rest h = ground arith

tlv_length-long :
    (n : ℕ) (rest : List ℕ)
    → n < 65536
    → tlv_length (0x03 ∷ 0xFF ∷ (u16_be_bytes n ++ rest)) 0 ≡ some (n, 4)
unfolding tlv_length
tlv_length-long n rest h = ap (λ k. some (k, 4)) (omega arith)

scan_first :
    (fuel : ℕ) (r : List ℕ)
    → scan (suc fuel) (0x03 ∷ r) 0 ≡ scan_tlv (0x03 ∷ r) 0 0x03 (scan fuel (0x03 ∷ r))
unfolding scan
scan_first fuel r = ground arith

scan_tlv_found :
    (user : List ℕ) (len hdr : ℕ) (v : List ℕ) (next : ℕ → Scan)
    → tlv_length user 0 ≡ some (len, hdr)
    → get_range? user (0 + hdr) len ≡ some v
    → scan_tlv user 0 0x03 next ≡ found v
unfolding scan_tlv
scan_tlv_found user len hdr v next e g = ground arith

-- The first TLV of the area is found.
scan-tlv :
    (fuel : ℕ) (msg rest : List ℕ)
    → length msg < 65536
    → scan (suc fuel) (0x03 ∷ (length_field (length msg) ++ (msg ++ rest))) 0 ≡ found msg
scan-tlv fuel msg rest h = elim (dec_lt (length msg) 0xFF) [
  | yes p ↦ rw (lt→ltb (length msg) 0xFF p) (
      scan_first fuel (length msg ∷ (msg ++ rest))
      ∙ scan_tlv_found _ (length msg) 2 msg _ (tlv_length-short (length msg) (msg ++ rest) p)
          (take?-append msg rest))
  | no p ↦ rw (le→ltb (length msg) 0xFF (omega arith)) (
      scan_first fuel (0xFF ∷ (u16_be_bytes (length msg) ++ (msg ++ rest)))
      ∙ scan_tlv_found _ (length msg) 4 msg _ (tlv_length-long (length msg) (msg ++ rest) h)
          (take?-append msg rest))
]

set_ndef-fits : (m msg : List ℕ) → FitsTag msg → set_ndef m msg ≡ (store_ndef m msg, true)
unfolding set_ndef
set_ndef-fits m msg h = rw (le→ltb _ _ h)

ndef-user_area : (m u : List ℕ) → user_area m ≡ u → ndef m ≡ scan (length u) u 0
unfolding ndef
ndef-user_area m u e = ap (λ x. scan (length x) x 0) e

-- A message that fits the user area is stored, and `ndef` gives it back, whatever was in the memory.
pub ndef-set_ndef :
    (m msg : List ℕ)
    → length m ≡ mem_bytes
    → FitsTag msg
    → ((set_ndef m msg).1 ≡ true) × (ndef (set_ndef m msg).0 ≡ found msg)
ndef-set_ndef m msg l h = rw (set_ndef-fits m msg h) (
  refl,
  ndef-user_area (store_ndef m msg) (tlv msg) (user_area-store_ndef m msg l h)
      ∙ ap (λ n. scan n (tlv msg) 0) (length-tlv msg h)
      ∙ scan-tlv 887 msg (padding msg) (ground arith),
)

-- One that does not fit is refused, and nothing changes.
pub set_ndef_refused :
    (m msg : List ℕ) → 888 < tlv_header (length msg) + length msg + 1 → set_ndef m msg ≡ (m, false)
unfolding set_ndef
set_ndef_refused m msg h = rw (lt→ltb _ _ h)

-- Outside the user area, `set_ndef` changes nothing: neither the UID, the lock bytes and the
-- capability container nor the configuration pages.
pub set_ndef_outside :
    (m msg : List ℕ) (j : ℕ) → (j < 16) ⊎ (904 ≤ j) → get_or (set_ndef m msg).0 j 0 ≡ get_or m j 0
set_ndef_outside m msg j h = elim (dec_le (tlv_header (length msg) + length msg + 1) 888) [
  | yes p ↦
      rw (set_ndef-fits m msg p, store_ndef-tlv m msg)
        (get_or-write_at_out (tlv msg) m 16 j 0 (outside (length-tlv msg p) h))
  | no p ↦ rw (set_ndef_refused m msg (omega arith))
]
  where
    outside : {n : ℕ} → n ≡ 888 → (j < 16) ⊎ (904 ≤ j) → (j < 16) ⊎ (16 + n ≤ j)
    outside e (inl p) = inl p
    outside e (inr p) = inr (omega arith)

pub length-set_ndef : (m msg : List ℕ) → length (set_ndef m msg).0 ≡ length m
length-set_ndef m msg = elim (dec_le (tlv_header (length msg) + length msg + 1) 888) [
  | yes p ↦ rw (set_ndef-fits m msg p, store_ndef-tlv m msg) (length-write_at (tlv msg) m 16)
  | no p ↦ rw (set_ndef_refused m msg (omega arith))
]
