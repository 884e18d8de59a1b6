-- ===== src/Plate/Ndef/RoundTrip.antt =====
-- `apply_ndef` reads back the message that `to_ndef` wrote of a content without an image.
use paper_name_plate.Base.{ℕ, suc, ◌+◌, ◌%◌, ◌≤◌, ◌<◌, ◌≡◌, refl, sym, ap, ◌∙◌, arith}
use paper_name_plate.Base.{List, [], ◌∷◌, ◌++◌, Bool, true, false, none, some, append-nil}
use paper_name_plate.Base.{bit_and, ◌==◌, if◌then◌else◌, All, length, length-append}
use paper_name_plate.Text.Utf8.{Str, as_bytes, from_utf8_lossy-as_bytes, IsScalar}
use paper_name_plate.Text.Trim.{strip_prefix, trim_start_matches-none, trim_start_matches-prefix}
use paper_name_plate.Text.Split.{newline}
use paper_name_plate.Reader.Uri.{uri_prefix}
use paper_name_plate.Plate.Content.{PlateContent, https, http}
use paper_name_plate.Plate.Plain.{strip_scheme, text_len}
use paper_name_plate.Plate.Plain.RoundTrip.{IsPlain}
use paper_name_plate.Plate.Plain.Limits.{Fits}
use paper_name_plate.Plate.Ndef.Record.{NdefRecord, record_at}
use paper_name_plate.Plate.Ndef.Write.{
  text_header, text_record, uri_record, text_records, to_ndef, is_empty,
}
use paper_name_plate.Plate.Ndef.Read.{
  apply_text_record, apply_uri_record, apply_record, apply_from, apply_ndef,
}
use paper_name_plate.Plate.Ndef.Shift.{shift, record_at-append}
use paper_name_plate.Plate.Ndef.Walk.{short_record, apply_from-last, apply_from-next}
use paper_name_plate.Plate.Ndef.Lines.{
  five, IsSent, as_bytes-line, text_payload-five, with_text, apply_text-five,
}

apply_record-text :
    (c d : PlateContent) (next : ℕ)
    → IsPlain d
    → IsSent d
    → apply_record
        (record {
          tnf = 1;
          rtype = b'T' ∷ [];
          payload = 0x02 ∷ b'e' ∷ b'n' ∷ as_bytes (five d);
          next = next;
        })
        c
      ≡ with_text d c
unfolding apply_record apply_text_record
apply_record-text c d next h k =
    rw (from_utf8_lossy-as_bytes (five d) k.scalars) (apply_text-five c d h k)

-- The link behind its prefix `https://`, code 4.
uri_prefix-https : uri_prefix 0x04 ≡ https
unfolding uri_prefix
uri_prefix-https = refl

apply_record-uri :
    (c : PlateContent) (url : Str) (next : ℕ)
    → All IsScalar url
    → strip_prefix https url ≡ none
    → strip_prefix http url ≡ none
    → apply_record
        (record { tnf = 1; rtype = b'U' ∷ []; payload = 0x04 ∷ as_bytes url; next = next })
        c
      ≡ record c { url = url }
unfolding apply_record apply_uri_record strip_scheme
apply_record-uri c url next k no_https no_http =
    rw
      (
        from_utf8_lossy-as_bytes url k,
        uri_prefix-https,
        trim_start_matches-prefix b'h' (b't' ∷ b't' ∷ b'p' ∷ b's' ∷ b':' ∷ b'/' ∷ b'/' ∷ []) url
            no_https,
        trim_start_matches-none http url no_http,
      )
      refl

line-length :
    (s t : Str)
    → length (as_bytes (s ++ (newline ∷ t))) ≡ length (as_bytes s) + suc (length (as_bytes t))
line-length s t = ap length (as_bytes-line s t) ∙ length-append (as_bytes s) (0x0A ∷ as_bytes t)

five-length : (d : PlateContent) → length (as_bytes (five d)) ≡ text_len d
five-length d =
    let x = d.x ++ (newline ∷ d.note) in
    let github = d.github ++ (newline ∷ x) in
    let email = d.email ++ (newline ∷ github) in
    omega (
      arith,
      line-length d.name email,
      line-length d.email github,
      line-length d.github x,
      line-length d.x d.note,
    )

-- The payload of the text record.
abbrev text_of : PlateContent → List ℕ
text_of d = 0x02 ∷ b'e' ∷ b'n' ∷ as_bytes (five d)

text_header-flags :
    (first last : Bool)
    → ((bit_and (text_header first last) 0x10 == 0) ≡ false)
      × ((bit_and (text_header first last) 0x08 == 0) ≡ true)
      × (bit_and (text_header first last) 0x07 ≡ 1)
text_header-flags true true = (refl, refl, refl)
text_header-flags true false = (refl, refl, refl)
text_header-flags false true = (refl, refl, refl)
text_header-flags false false = (refl, refl, refl)

text_record-at :
    (first last : Bool) (d : PlateContent)
    → length (text_of d) < 256
    → record_at (text_record first last (as_bytes (five d))) 0
      ≡ some (record {
        tnf = 1;
        rtype = b'T' ∷ [];
        payload = text_of d;
        next = 4 + length (text_of d);
      })
unfolding text_record
text_record-at first last d h =
    let flags = text_header-flags first last in
    let n : (length (as_bytes (five d)) + 3) % 256 ≡ length (text_of d) % 256 = omega arith in
    ap (λ k. record_at (text_header first last ∷ 0x01 ∷ k ∷ b'T' ∷ text_of d) 0) n
    ∙ ap (λ p. record_at (text_header first last ∷ 0x01 ∷ length (text_of d) % 256 ∷ b'T' ∷ p) 0)
        (sym (append-nil (text_of d)))
    ∙ short_record (text_header first last) b'T' (text_of d) [] flags.0 flags.1 flags.2 h

uri_record-at :
    (ch : ℕ) (s : Str) (rest : List ℕ)
    → length (as_bytes (ch ∷ s)) + 1 < 256
    → record_at (uri_record (ch ∷ s) ++ rest) 0
      ≡ some (record {
        tnf = 1;
        rtype = b'U' ∷ [];
        payload = 0x04 ∷ as_bytes (ch ∷ s);
        next = 5 + length (as_bytes (ch ∷ s));
      })
unfolding uri_record
uri_record-at ch s rest h =
    let bs = as_bytes (ch ∷ s) in
    let n : (length bs + 1) % 256 ≡ suc (length bs) % 256 = omega arith in
    let m : 4 + suc (length bs) ≡ 5 + length bs = omega arith in
    ap (λ k. record_at (0x91 ∷ 0x01 ∷ k ∷ b'U' ∷ 0x04 ∷ (bs ++ rest)) 0) n
    ∙ short_record 0x91 b'U' (0x04 ∷ bs) rest refl refl refl (omega arith)
    ∙ ap (λ j. some (record { tnf = 1; rtype = b'U' ∷ []; payload = 0x04 ∷ bs; next = j })) m

text_record-length :
    (first last : Bool) (d : PlateContent)
    → length (text_record first last (as_bytes (five d))) ≡ 4 + length (text_of d)
unfolding text_record
text_record-length first last d = omega arith

uri_record-length :
    (ch : ℕ) (s : Str) → length (uri_record (ch ∷ s)) ≡ 5 + length (as_bytes (ch ∷ s))
unfolding uri_record
uri_record-length ch s = omega arith

-- The text record alone.
only_text :
    (c d : PlateContent)
    → IsPlain d
    → IsSent d
    → length (text_of d) < 256
    → apply_ndef (text_record true true (as_bytes (five d))) c ≡ some (with_text d c)
unfolding apply_ndef
only_text c d h k small =
    let msg = text_record true true (as_bytes (five d)) in
    apply_from-last (length msg) msg 0 c _ (text_record-at true true d small)
      (omega (arith, text_record-length true true d))
    ∙ ap some (apply_record-text c d _ h k)

-- The link's record, and the text record behind it.
link_and_text :
    (c d : PlateContent) (ch : ℕ) (s : Str)
    → IsPlain d
    → IsSent d
    → All IsScalar (ch ∷ s)
    → strip_prefix https (ch ∷ s) ≡ none
    → strip_prefix http (ch ∷ s) ≡ none
    → length (text_of d) < 256
    → length (as_bytes (ch ∷ s)) + 1 < 256
    → apply_ndef (uri_record (ch ∷ s) ++ text_record false true (as_bytes (five d))) c
      ≡ some (with_text d (record c { url = ch ∷ s }))
unfolding apply_ndef
link_and_text c d ch s h k scalars no_https no_http small link =
    let u = uri_record (ch ∷ s) in
    let t = text_record false true (as_bytes (five d)) in
    let bs = as_bytes (ch ∷ s) in
    let ulen : length u ≡ 5 + length bs = uri_record-length ch s in
    let whole = length-append u t in
    let tlen = text_record-length false true d in
    let first = uri_record-at ch s t link in
    let r : NdefRecord = record {
      tnf = 1;
      rtype = b'U' ∷ [];
      payload = 0x04 ∷ bs;
      next = 5 + length bs;
    } in
    let fuel : length (u ++ t) ≡ suc (length bs + length t + 4) = omega (arith, ulen, whole) in
    let second : record_at (u ++ t) (5 + length bs) ≡ shift (length u) (record_at t 0) =
      ap (record_at (u ++ t)) (omega (arith, ulen)) ∙ record_at-append u t 0 in
    apply_from-next (length (u ++ t)) (u ++ t) 0 c _ first (omega arith)
      (omega (arith, ulen, whole, tlen))
    ∙ ap (λ f. apply_from f (u ++ t) (5 + length bs) (apply_record r c)) fuel
    ∙ apply_from-last (length bs + length t + 4) (u ++ t) (5 + length bs) (apply_record r c) _
        (second ∙ ap (shift (length u)) (text_record-at false true d small))
        (omega (arith, ulen, whole, tlen))
    ∙ ap some (
        apply_record-text (apply_record r c) d _ h k
        ∙ ap (with_text d) (apply_record-uri c (ch ∷ s) (5 + length bs) scalars no_https no_http))

-- What the message sets of a content: the text fields, and the link, if there is one.
abbrev pub received : PlateContent → PlateContent → PlateContent
received d c = record d { url = if is_empty d.url then c.url else d.url; image = c.image }

by_link :
    (url : Str) (c d : PlateContent)
    → IsPlain d
    → IsSent d
    → length (text_of d) < 256
    → All IsScalar url
    → strip_prefix https url ≡ none
    → strip_prefix http url ≡ none
    → length (as_bytes url) + 1 < 256
    → apply_ndef (uri_record url ++ text_record (is_empty url) true (as_bytes (five d))) c
      ≡ some (with_text d (record c { url = if is_empty url then c.url else url }))
unfolding uri_record
by_link [] c d h k small scalars no_https no_http link = only_text c d h k small
by_link (ch ∷ s) c d h k small scalars no_https no_http link =
    link_and_text c d ch s h k scalars no_https no_http small link

to_ndef-text :
    (d : PlateContent)
    → d.image ≡ none
    → to_ndef d ≡ uri_record d.url ++ text_record (is_empty d.url) true (as_bytes (five d))
unfolding to_ndef text_records
to_ndef-text d e = rw (e, text_payload-five d) refl

-- A content without an image whose fields are lines of scalar values, bare and without `;`, and that
-- fits, is read back from its message: every text field is set, the link is set if there is one, and
-- the image stays.
pub apply_ndef-to_ndef :
    (c d : PlateContent)
    → IsPlain d
    → IsSent d
    → Fits d
    → d.image ≡ none
    → apply_ndef (to_ndef d) c ≡ some (received d c)
apply_ndef-to_ndef c d h k f e =
    ap (λ m. apply_ndef m c) (to_ndef-text d e)
    ∙ by_link d.url c d h k (omega (arith, five-length d, f.text)) k.link_scalars h.no_https
        h.no_http (omega (arith, f.link))

uri_record-le : (url : Str) → length (uri_record url) ≤ 5 + length (as_bytes url)
unfolding uri_record
uri_record-le [] = omega arith
uri_record-le (ch ∷ s) = omega arith

-- The size of the message of a content that fits.
pub length-to_ndef :
    (d : PlateContent)
    → Fits d
    → d.image ≡ none
    → (4 ≤ length (to_ndef d)) × (length (to_ndef d) ≤ 452)
length-to_ndef d f e =
    let u = uri_record d.url in
    let t = text_record (is_empty d.url) true (as_bytes (five d)) in
    let ul = uri_record-le d.url in
    let tl = text_record-length (is_empty d.url) true d in
    let whole : length (to_ndef d) ≡ length u + length t =
      ap length (to_ndef-text d e) ∙ length-append u t in
    (omega (arith, whole, tl), omega (arith, whole, ul, tl, five-length d, f.text, f.link))
