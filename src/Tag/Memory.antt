-- ===== src/Tag/Memory.antt =====
-- The memory of the emulated tag: `new`, `uid`, `set_ndef` and `ndef` of t2t_emu.rs.
pub mod Layout
pub mod Ndef
use paper_name_plate.Base.{
  ℕ, zero, suc, ◌+◌, ◌-◌, ◌*◌, ◌%◌, ◌/◌, List, [], ◌∷◌, ◌++◌, Bool, true, false,
}
use paper_name_plate.Base.{Option, none, some, ltb, leb, ◌==◌, if◌then◌else◌, bit_xor}
use paper_name_plate.Base.{
  length, get_or, take, drop, set, replicate, get_elem?, get_range?, write_at,
}
use paper_name_plate.Base.Bytes.{u16_be, u16_be_bytes}

-- NTAG216: 231 pages of 4 bytes; pages 4 to 225 are the user's.
abbrev pub pages : ℕ
pages = 231

abbrev pub mem_bytes : ℕ
mem_bytes = 924

abbrev pub user_first_page : ℕ
user_first_page = 4

abbrev pub user_last_page : ℕ
user_last_page = 225

abbrev pub user_bytes : ℕ
user_bytes = 888

-- `memory` of `T2tEmulator::new(uid)`, write by write.
unfoldable pub new_memory : List ℕ → List ℕ
new_memory uid =
    let u = λ (i : ℕ). get_or uid i 0 in
    let m0 = replicate mem_bytes 0 in
    let m1 = set (set (set m0 0 (u 0)) 1 (u 1)) 2 (u 2) in
    let m2 = set m1 3 (bit_xor (bit_xor (bit_xor 0x88 (u 0)) (u 1)) (u 2)) in
    let m3 = write_at m2 4 (take 4 (drop 3 uid)) in
    let m4 = set m3 8 (bit_xor (bit_xor (bit_xor (u 3) (u 4)) (u 5)) (u 6)) in
    let m5 = set m4 9 0x48 in
    let m6 = write_at m5 12 (0xE1 ∷ 0x10 ∷ 0x6D ∷ 0x00 ∷ []) in
    let m7 = write_at m6 16 (0x03 ∷ 0x00 ∷ 0xFE ∷ 0x00 ∷ []) in
    let cfg = user_last_page + 1 in
    let m8 = write_at m7 (cfg * 4) (0x00 ∷ 0x00 ∷ 0x00 ∷ 0xFF ∷ []) in
    let m9 = write_at m8 (cfg * 4 + 4) (0x00 ∷ 0x05 ∷ 0x00 ∷ 0x00 ∷ []) in
    write_at m9 (cfg * 4 + 8) (0xFF ∷ 0xFF ∷ 0xFF ∷ 0xFF ∷ [])

-- `uid()`
unfoldable pub uid_of : List ℕ → List ℕ
uid_of m =
    get_or m 0 0
    ∷ get_or m 1 0
    ∷ get_or m 2 0
    ∷ get_or m 4 0
    ∷ get_or m 5 0
    ∷ get_or m 6 0
    ∷ get_or m 7 0
    ∷ []

-- The length of a TLV's tag and length field: one length byte below 255, else three.
abbrev pub tlv_header : ℕ → ℕ
tlv_header len = if ltb len 0xFF then 2 else 4

-- The length field at `i`.
abbrev pub write_length : List ℕ → ℕ → ℕ → List ℕ
write_length m i len =
    if ltb len 0xFF then set m i (len % 256) else write_at (set m i 0xFF) (i + 1) (u16_be_bytes len)

-- The writes of `set_ndef`, behind its test.
unfoldable pub store_ndef : List ℕ → List ℕ → List ℕ
store_ndef m msg =
    let start = user_first_page * 4 in
    let m1 = set m start 0x03 in
    let m2 = write_length m1 (start + 1) (length msg) in
    let i = start + tlv_header (length msg) in
    let m3 = write_at m2 i msg in
    let j = i + length msg in
    let m4 = set m3 j 0xFE in write_at m4 (j + 1) (replicate ((user_last_page + 1) * 4 - (j + 1)) 0)

-- `set_ndef`: the new memory, and whether the message fits.
unfoldable pub set_ndef : List ℕ → List ℕ → List ℕ × Bool
unfolding store_ndef
set_ndef m msg =
    if ltb user_bytes (tlv_header (length msg) + length msg + 1)
    then (m, false)
    else (store_ndef m msg, true)

-- `ndef()` returns a message or none; `stuck` is no answer of the code but the end of the fuel.
pub data Scan : Type 0 where
  found : List ℕ → Scan
  absent : Scan
  stuck : Scan

-- The length and the header length of the TLV at `i`, if its length field is there.
unfoldable pub tlv_length : List ℕ → ℕ → Option (ℕ × ℕ)
tlv_length user i = elim (get_elem? user (i + 1)) [
  | none ↦ none
  | some l ↦
      if l == 0xFF
      then elim (get_elem? user (i + 2)) [
        | none ↦ none
        | some hi ↦ elim (get_elem? user (i + 3)) [ none ↦ none | some lo ↦ some (u16_be hi lo, 4) ]
      ]
      else some (l, 2)
]

-- The TLV at `i` whose tag is `t`, with what `next` says of the TLV behind it.
unfoldable pub scan_tlv : List ℕ → ℕ → ℕ → (ℕ → Scan) → Scan
unfolding tlv_length
scan_tlv user i t next = elim (tlv_length user i) [
  | none ↦ absent
  | some (len, hdr) ↦ elim (get_range? user (i + hdr) len) [
    | none ↦ absent
    | some v ↦ if t == 0x03 then found v else next (i + (hdr + len))
  ]
]

-- The loop of `ndef`, from index `i`.
unfoldable pub scan : ℕ → List ℕ → ℕ → Scan
unfolding scan_tlv
scan zero user i = if ltb i (length user) then stuck else absent
scan (suc fuel) user i =
    let byte = get_or user i 0 in
    let null_tlv = scan fuel user (i + 1) in
    let other = scan_tlv user i byte (scan fuel user) in
    if ltb i (length user)
    then (if byte == 0x00 then null_tlv else if byte == 0xFE then absent else other)
    else absent

abbrev pub user_area : List ℕ → List ℕ
user_area m = take user_bytes (drop (user_first_page * 4) m)

-- Each round passes a byte at least, so that the length of the area is fuel enough.
unfoldable pub ndef : List ℕ → Scan
unfolding scan
ndef m = scan (length (user_area m)) (user_area m) 0
