-- ===== src/Plate/Ndef/Walk.antt =====
-- How `apply_ndef` of app/plate.rs walks over short records.
use paper_name_plate.Base.{ℕ, suc, ◌+◌, ◌%◌, ◌≤◌, ◌<◌, ◌≡◌, refl, ap, ◌∙◌, arith}
use paper_name_plate.Base.{List, [], ◌∷◌, ◌++◌, true, false, Option, none, some}
use paper_name_plate.Base.{bit_and, ◌==◌, length, take, take?, take?-some, length-append}
use paper_name_plate.Plate.Content.{PlateContent}
use paper_name_plate.Plate.Ndef.Record.{
  NdefRecord, record_at, record_fields, payload_length, skip_id, record_body,
}
use paper_name_plate.Plate.Ndef.Read.{apply_record, apply_from}

take-length : (xs ys : List ℕ) → take (length xs) (xs ++ ys) ≡ xs
take-length [] ys = refl
take-length (x ∷ xs) ys = ap (λ r. x ∷ r) (take-length xs ys)

take?-length : (xs ys : List ℕ) → take? (xs ++ ys) (length xs) ≡ some xs
take?-length xs ys =
    take?-some (xs ++ ys) (length xs) (omega (arith, length-append xs ys))
    ∙ ap some (take-length xs ys)

-- The type and the payload of a short record, which begins at 0.
short_body :
    (hdr t len : ℕ) (payload rest : List ℕ)
    → len ≡ length payload
    → record_body (hdr ∷ 0x01 ∷ len ∷ t ∷ (payload ++ rest)) 1 3 1 len
      ≡ some (record { tnf = 1; rtype = t ∷ []; payload = payload; next = 4 + length payload })
unfolding record_body
short_body hdr t len payload rest e =
    let body = λ (o : Option (List ℕ)). elim o as (λ x. Option NdefRecord) [
      | none ↦ none
      | some p ↦ some (record { tnf = 1; rtype = t ∷ []; payload = p; next = 3 + 1 + len })
    ] in
    let n : 3 + 1 + len ≡ 4 + length payload = omega (arith, e) in
    ap body (ap (take? (payload ++ rest)) e ∙ take?-length payload rest)
    ∙ ap (λ j. some (record { tnf = 1; rtype = t ∷ []; payload = payload; next = j })) n

-- A short record of the well-known type `t`, without an identifier, at the start of a message.
pub short_record :
    (hdr t : ℕ) (payload rest : List ℕ)
    → (bit_and hdr 0x10 == 0) ≡ false
    → (bit_and hdr 0x08 == 0) ≡ true
    → bit_and hdr 0x07 ≡ 1
    → length payload < 256
    → record_at (hdr ∷ 0x01 ∷ length payload % 256 ∷ t ∷ (payload ++ rest)) 0
      ≡ some (record { tnf = 1; rtype = t ∷ []; payload = payload; next = 4 + length payload })
unfolding record_at record_fields payload_length skip_id
short_record hdr t payload rest short no_id known small =
    let len = length payload % 256 in
    let msg = hdr ∷ 0x01 ∷ len ∷ t ∷ (payload ++ rest) in
    let step : record_at msg 0 ≡ record_fields msg 0 hdr 1 = refl in
    step
    ∙ rw (short, record_fields)
        (rw (no_id, skip_id) (rw known (short_body hdr t len payload rest (omega arith))))

-- The last record of a message ends it.
pub apply_from-last :
    (fuel : ℕ) (msg : List ℕ) (i : ℕ) (c : PlateContent) (r : NdefRecord)
    → record_at msg i ≡ some r
    → length msg ≤ r.next
    → apply_from (suc fuel) msg i c ≡ some (apply_record r c)
unfolding apply_from
apply_from-last fuel msg i c r e h = rw (e, apply_from) (ground (arith, h))

pub apply_from-next :
    (fuel : ℕ) (msg : List ℕ) (i : ℕ) (c : PlateContent) (r : NdefRecord)
    → record_at msg i ≡ some r
    → i < r.next
    → r.next < length msg
    → apply_from (suc fuel) msg i c ≡ apply_from fuel msg r.next (apply_record r c)
unfolding apply_from
apply_from-next fuel msg i c r e h k = rw (e, apply_from) (ground (arith, h, k))
