-- ===== src/Reader/First.antt =====
-- `first_record` and `summarize` of ndef.rs: what is shown of a message.
use paper_name_plate.Base.{
  ℕ, ◌+◌, ◌≡◌, refl, arith, List, [], ◌∷◌, ◌++◌, not, ◌&&◌, Option, none, some,
}
use paper_name_plate.Base.{
  min, length, get_or, drop, get_elem?, get_range?, drop?, bytes_eq, bit_and, leb, ◌==◌,
}
use paper_name_plate.Base.{if◌then◌else◌}
use paper_name_plate.Base.{Bool}
use paper_name_plate.Base.Bytes.{u32_be}
use paper_name_plate.Text.Utf8.{Str}
use paper_name_plate.Plate.Ndef.Record.{
  NdefRecord, record_at, record_fields, record_body, payload_length, skip_id,
}
use paper_name_plate.Reader.Uri.{uri_prefix}

-- `ascii`: a byte that is no printable character becomes a dot.
abbrev pub ascii : List ℕ → Str
ascii [] = []
ascii (b ∷ bs) = (if leb 0x20 b && leb b 0x7E then b else b'.') ∷ ascii bs

-- The payload's length, at offset 2, and the offset behind it.
unfoldable pub first_length : List ℕ → Bool → Option (ℕ × ℕ)
first_length msg sr =
    if sr
    then elim (get_elem? msg 2) [ none ↦ none | some l ↦ some (l, 3) ]
    else elim (get_range? msg 2 4) [
      | some (b0 ∷ b1 ∷ b2 ∷ b3 ∷ []) ↦ some (u32_be b0 b1 b2 b3, 6)
      | _ ↦ none
    ]

-- The offset of the type: behind the identifier and its length, if there is one.
unfoldable pub first_type : List ℕ → ℕ → Bool → Option ℕ
first_type msg i il =
    if il then elim (get_elem? msg i) [ none ↦ none | some idl ↦ some (i + (1 + idl)) ] else some i

-- `first_record`, whose result has no offset behind the record.
unfoldable pub first_record : List ℕ → Option (ℕ × List ℕ × List ℕ)
unfolding first_length first_type
first_record [] = none
first_record (hdr ∷ rest) =
    let msg = hdr ∷ rest in
    elim (get_elem? msg 1) [
      | none ↦ none
      | some type_len ↦ elim (first_length msg (not (bit_and hdr 0x10 == 0))) [
        | none ↦ none
        | some (len, p) ↦ elim (first_type msg p (not (bit_and hdr 0x08 == 0))) [
          | none ↦ none
          | some i ↦ elim (get_range? msg i type_len) [
            | none ↦ none
            | some rtype ↦ elim (get_range? msg (i + type_len) len) [
              | none ↦ none
              | some payload ↦ some (bit_and hdr 0x07, rtype, payload)
            ]
          ]
        ]
      ]
    ]

-- `summarize` chooses one of four texts; the numbers of the last are printed by `write!`.
pub data Summary : Type 0 where
  uri : Str → Summary
  text : Str → Summary
  other : (tnf : ℕ) → (rtype : Str) → (size : ℕ) → Summary
  invalid : Summary

unfoldable pub summarize : List ℕ → Summary
unfolding first_record uri_prefix
summarize msg = elim (first_record msg) [
  | none ↦ invalid
  | some (tnf, rtype, payload) ↦
      if tnf == 1 && bytes_eq rtype (b'U' ∷ [])
      then uri (uri_prefix (get_or payload 0 0) ++ ascii (drop (min 1 (length payload)) payload))
      else if tnf == 1 && bytes_eq rtype (b'T' ∷ [])
      then text (elim (drop? payload (1 + bit_and (get_or payload 0 0) 0x3F)) [
        | none ↦ []
        | some t ↦ ascii t
      ])
      else other tnf (ascii rtype) (length payload)
]

-- What `first_record` returns is the record that `record_at` of app/plate.rs finds at offset 0.
abbrev pub without_next : Option NdefRecord → Option (ℕ × List ℕ × List ℕ)
without_next none = none
without_next (some r) = some (r.tnf, r.rtype, r.payload)

pub first_record-eq-record_at : (msg : List ℕ) → first_record msg ≡ without_next (record_at msg 0)
unfolding first_record first_length first_type record_at record_fields record_body payload_length
    skip_id
first_record-eq-record_at [] = refl
first_record-eq-record_at (hdr ∷ rest) = ground arith
