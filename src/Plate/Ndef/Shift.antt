-- ===== src/Plate/Ndef/Shift.antt =====
-- `record_at` looks at no byte before its offset: bytes in front of a message shift its records.
use paper_name_plate.Base.{
  ℕ, suc, ◌+◌, ◌≡◌, refl, ap, ◌∙◌, arith, List, [], ◌∷◌, ◌++◌, Bool, true, false, not,
}
use paper_name_plate.Base.{Option, none, some, bit_and, ◌==◌}
use paper_name_plate.Base.{length, get_elem?, get_range?}
use paper_name_plate.Plate.Ndef.Record.{
  NdefRecord, record_at, record_fields, payload_length, skip_id, record_body,
}

get_elem?-append : (pre m : List ℕ) (i : ℕ) → get_elem? (pre ++ m) (length pre + i) ≡ get_elem? m i
get_elem?-append [] m i = ap (get_elem? m) (omega arith)
get_elem?-append (b ∷ pre) m i =
    let e : suc (length pre) + i ≡ suc (length pre + i) = omega arith in
    rw e (get_elem?-append pre m i)

get_range?-append :
    (pre m : List ℕ) (i n : ℕ) → get_range? (pre ++ m) (length pre + i) n ≡ get_range? m i n
get_range?-append [] m i n = ap (λ k. get_range? m k n) (omega arith)
get_range?-append (b ∷ pre) m i n =
    let e : suc (length pre) + i ≡ suc (length pre + i) = omega arith in
    rw e (get_range?-append pre m i n)

abbrev pub shift : ℕ → Option NdefRecord → Option NdefRecord
shift k none = none
shift k (some r) = some (record r { next = k + r.next })

module _ (pre m : List ℕ) where
  abbrev k : ℕ
  k = length pre

  abbrev shift_pair : Option (ℕ × ℕ) → Option (ℕ × ℕ)
  shift_pair none = none
  shift_pair (some (l, p)) = some (l, k + p)

  abbrev shift_offset : Option ℕ → Option ℕ
  shift_offset none = none
  shift_offset (some p) = some (k + p)

  payload_length-append :
      (p : ℕ) (short : Bool)
      → payload_length (pre ++ m) (k + p) short ≡ shift_pair (payload_length m p short)
  unfolding payload_length
  payload_length-append p true = rw (get_elem?-append pre m p) (ground arith)
  payload_length-append p false = rw (get_range?-append pre m p 4) (ground arith)

  skip_id-append :
      (p : ℕ) (has_id : Bool)
      → skip_id (pre ++ m) (k + p) has_id ≡ shift_offset (skip_id m p has_id)
  unfolding skip_id
  skip_id-append p true = rw (get_elem?-append pre m p) (ground arith)
  skip_id-append p false = refl

  record_body-append :
      (tnf p type_len len : ℕ)
      → record_body (pre ++ m) tnf (k + p) type_len len ≡ shift k (record_body m tnf p type_len len)
  unfolding record_body
  record_body-append tnf p type_len len =
      rw (get_range?-append pre m p type_len, record_body) (with_type (get_range? m p type_len))
    where
      with_payload :
          (t : List ℕ) (o : Option (List ℕ))
          → elim o as (λ _. Option NdefRecord) [
            | none ↦ none
            | some d ↦
                some (record { tnf = tnf; rtype = t; payload = d; next = k + p + type_len + len })
          ]
            ≡ shift k (elim o as (λ _. Option NdefRecord) [
              | none ↦ none
              | some d ↦
                  some (record { tnf = tnf; rtype = t; payload = d; next = p + type_len + len })
            ])
      with_payload t none = refl
      with_payload t (some d) = ground arith

      with_type :
          (o : Option (List ℕ))
          → elim o as (λ _. Option NdefRecord) [
            | none ↦ none
            | some t ↦
                elim (get_range? (pre ++ m) (k + p + type_len) len) as (λ _. Option NdefRecord) [
                  | none ↦ none
                  | some d ↦
                      some (record {
                        tnf = tnf;
                        rtype = t;
                        payload = d;
                        next = k + p + type_len + len;
                      })
                ]
          ]
            ≡ shift k (elim o as (λ _. Option NdefRecord) [
              | none ↦ none
              | some t ↦ elim (get_range? m (p + type_len) len) as (λ _. Option NdefRecord) [
                | none ↦ none
                | some d ↦
                    some (record { tnf = tnf; rtype = t; payload = d; next = p + type_len + len })
              ]
            ])
      with_type none = refl
      with_type (some t) =
          let e : k + p + type_len ≡ k + (p + type_len) = omega arith in
          let s : get_range? (pre ++ m) (k + p + type_len) len ≡ get_range? m (p + type_len) len =
            ap (λ j. get_range? (pre ++ m) j len) e ∙ get_range?-append pre m (p + type_len) len in
          rw s (with_payload t (get_range? m (p + type_len) len))

  record_fields-append :
      (i hdr type_len : ℕ)
      → record_fields (pre ++ m) (k + i) hdr type_len ≡ shift k (record_fields m i hdr type_len)
  unfolding record_fields
  record_fields-append i hdr type_len =
      let short = not (bit_and hdr 0x10 == 0) in
      let e : k + i + 2 ≡ k + (i + 2) = omega arith in
      let f = payload_length-append (i + 2) short in
      rw (e, f, record_fields) (after (payload_length m (i + 2) short))
    where
      with_offset :
          (l : ℕ) (o : Option ℕ)
          → elim (shift_offset o) as (λ _. Option NdefRecord) [
            | none ↦ none
            | some q ↦ record_body (pre ++ m) (bit_and hdr 0x07) q type_len l
          ]
            ≡ shift k (elim o as (λ _. Option NdefRecord) [
              | none ↦ none
              | some q ↦ record_body m (bit_and hdr 0x07) q type_len l
            ])
      with_offset l none = refl
      with_offset l (some q) = record_body-append (bit_and hdr 0x07) q type_len l

      after :
          (o : Option (ℕ × ℕ))
          → elim (shift_pair o) as (λ _. Option NdefRecord) [
            | none ↦ none
            | some (l, p) ↦
                elim (skip_id (pre ++ m) p (not (bit_and hdr 0x08 == 0)))
                  as (λ _. Option NdefRecord) [
                    | none ↦ none
                    | some q ↦ record_body (pre ++ m) (bit_and hdr 0x07) q type_len l
                  ]
          ]
            ≡ shift k (elim o as (λ _. Option NdefRecord) [
              | none ↦ none
              | some (l, p) ↦
                  elim (skip_id m p (not (bit_and hdr 0x08 == 0))) as (λ _. Option NdefRecord) [
                    | none ↦ none
                    | some q ↦ record_body m (bit_and hdr 0x07) q type_len l
                  ]
            ])
      after none = refl
      after (some (l, p)) =
          rw (skip_id-append p (not (bit_and hdr 0x08 == 0)))
            (with_offset l (skip_id m p (not (bit_and hdr 0x08 == 0))))

-- Bytes in front of a message shift its records, and change nothing else.
pub record_at-append :
    (pre m : List ℕ) (i : ℕ)
    → record_at (pre ++ m) (length pre + i) ≡ shift (length pre) (record_at m i)
unfolding record_at
record_at-append pre m i = rw (get_elem?-append pre m i, record_at) (with_header (get_elem? m i))
  where
    with_type_len :
        (hdr : ℕ) (o : Option ℕ)
        → elim o as (λ _. Option NdefRecord) [
          | none ↦ none
          | some t ↦ record_fields (pre ++ m) (length pre + i) hdr t
        ]
          ≡ shift (length pre) (elim o as (λ _. Option NdefRecord) [
            | none ↦ none
            | some t ↦ record_fields m i hdr t
          ])
    with_type_len hdr none = refl
    with_type_len hdr (some t) = record_fields-append pre m i hdr t

    with_header :
        (o : Option ℕ)
        → elim o as (λ _. Option NdefRecord) [
          | none ↦ none
          | some hdr ↦
              elim (get_elem? (pre ++ m) (length pre + i + 1)) as (λ _. Option NdefRecord) [
                | none ↦ none
                | some t ↦ record_fields (pre ++ m) (length pre + i) hdr t
              ]
        ]
          ≡ shift (length pre) (elim o as (λ _. Option NdefRecord) [
            | none ↦ none
            | some hdr ↦ elim (get_elem? m (i + 1)) as (λ _. Option NdefRecord) [
              | none ↦ none
              | some t ↦ record_fields m i hdr t
            ]
          ])
    with_header none = refl
    with_header (some hdr) =
        let e : length pre + i + 1 ≡ length pre + (i + 1) = omega arith in
        let s : get_elem? (pre ++ m) (length pre + i + 1) ≡ get_elem? m (i + 1) =
          ap (get_elem? (pre ++ m)) e ∙ get_elem?-append pre m (i + 1) in
        rw s (with_type_len hdr (get_elem? m (i + 1)))
