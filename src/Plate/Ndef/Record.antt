-- ===== src/Plate/Ndef/Record.antt =====
-- `record_at` of app/plate.rs: the record at an offset of a message.
use paper_name_plate.Base.{
  ℕ, ◌+◌, List, [], ◌∷◌, Bool, not, Option, none, some, bit_and, ◌==◌, if◌then◌else◌,
}
use paper_name_plate.Base.{get_elem?, get_range?}
use paper_name_plate.Base.Bytes.{u32_be}

-- `(tnf, type, payload, next offset)`
pub record NdefRecord : Type 0 where
  pub tnf : ℕ
  pub rtype : List ℕ
  pub payload : List ℕ
  pub next : ℕ

-- The payload's length and the offset behind it: one byte in a short record, else four.
unfoldable pub payload_length : List ℕ → ℕ → Bool → Option (ℕ × ℕ)
payload_length msg p short =
    if short
    then elim (get_elem? msg p) [ none ↦ none | some l ↦ some (l, p + 1) ]
    else elim (get_range? msg p 4) [
      | some (b0 ∷ b1 ∷ b2 ∷ b3 ∷ []) ↦ some (u32_be b0 b1 b2 b3, p + 4)
      | _ ↦ none
    ]

-- The offset behind the identifier, if there is one: `p += 1 + idl`.
unfoldable pub skip_id : List ℕ → ℕ → Bool → Option ℕ
skip_id msg p has_id =
    if has_id
    then elim (get_elem? msg p) [ none ↦ none | some idl ↦ some (p + (1 + idl)) ]
    else some p

-- The type and the payload from offset `p` on.
unfoldable pub record_body : List ℕ → ℕ → ℕ → ℕ → ℕ → Option NdefRecord
record_body msg tnf p type_len len = elim (get_range? msg p type_len) [
  | none ↦ none
  | some rtype ↦ elim (get_range? msg (p + type_len) len) [
    | none ↦ none
    | some payload ↦
        some (record { tnf = tnf; rtype = rtype; payload = payload; next = p + type_len + len })
  ]
]

unfoldable pub record_fields : List ℕ → ℕ → ℕ → ℕ → Option NdefRecord
record_fields msg i hdr type_len = elim (payload_length msg (i + 2) (not (bit_and hdr 0x10 == 0))) [
  | none ↦ none
  | some (len, p) ↦ elim (skip_id msg p (not (bit_and hdr 0x08 == 0))) [
    | none ↦ none
    | some q ↦ record_body msg (bit_and hdr 0x07) q type_len len
  ]
]

unfoldable pub record_at : List ℕ → ℕ → Option NdefRecord
record_at msg i = elim (get_elem? msg i) [
  | none ↦ none
  | some hdr ↦ elim (get_elem? msg (i + 1)) [
    | none ↦ none
    | some type_len ↦ record_fields msg i hdr type_len
  ]
]
