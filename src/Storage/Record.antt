-- ===== src/Storage/Record.antt =====
-- The records of config_store.rs: `magic "PNP1" | len u16 LE | len bits 16..20 | crc | data`.
pub mod RoundTrip
pub mod Regions
use paper_name_plate.Base.{
  ℕ, ◌+◌, ◌-◌, ◌*◌, ◌/◌, ◌%◌, ◌^◌, min, List, [], ◌∷◌, ◌++◌, Bool, true, false, not, ◌||◌,
}
use paper_name_plate.Base.{Option, none, some, bit_and, bit_or, ltb, ◌==◌, if◌then◌else◌}
use paper_name_plate.Base.{length, get_or, take, drop, replicate, bytes_eq}
use paper_name_plate.Base.Bytes.{u16_le, u16_le_bytes}
use paper_name_plate.Storage.Flash.{Flash}
use paper_name_plate.Storage.Crc.{crc16, crc16_from}

abbrev pub region_offset : ℕ
region_offset = 0x9000

abbrev pub region_size : ℕ
region_size = 0x6000

abbrev pub image_offset : ℕ
image_offset = 0xFB_0000

abbrev pub image_region : ℕ
image_region = 0x50000

abbrev pub magic : List ℕ
magic = b'P' ∷ b'N' ∷ b'P' ∷ b'1' ∷ []

abbrev pub header : ℕ
header = 8

abbrev pub max_data : ℕ
max_data = 2048

abbrev pub max_image : ℕ
max_image = 48004

-- The length that a header holds.
unfoldable pub header_len : List ℕ → ℕ
header_len hdr =
    bit_or (u16_le (get_or hdr 4 0) (get_or hdr 5 0)) (bit_and (get_or hdr 6 0) 0x0F * 2 ^ 16)

-- `[..HEADER]` and the prefix behind it.
unfoldable pub head_bytes : ℕ → ℕ → List ℕ → List ℕ
head_bytes len crc prefix =
    magic ++ (u16_le_bytes len ++ (bit_and (len / 2 ^ 16 % 256) 0x0F ∷ bit_and crc 0xFF ∷ prefix))

module _ (fl : Flash) where
  open fl use {State, read, write}

  unfoldable pub load_data : State → ℕ → List ℕ → Option (List ℕ)
  load_data s offset hdr = elim (read s (offset + header) (header_len hdr)) [
    | none ↦ none
    | some bytes ↦ if bit_and (crc16 bytes) 0xFF == get_or hdr 7 0 then some bytes else none
  ]

  -- The checks of the header, then the data.
  unfoldable pub load_checked : State → ℕ → ℕ → ℕ → List ℕ → Option (List ℕ)
  load_checked s offset max region hdr =
      if not (bytes_eq (take 4 hdr) magic)
      then none
      else if header_len hdr == 0
          || (ltb max (header_len hdr) || ltb region (header + header_len hdr))
      then none
      else load_data s offset hdr

  -- `load_rec`
  unfoldable pub load_rec : State → ℕ → ℕ → ℕ → Option (List ℕ)
  unfolding load_checked
  load_rec s offset max region = elim (read s offset header) [
    | none ↦ none
    | some hdr ↦ load_checked s offset max region hdr
  ]

  -- A write of the header and the prefix, then one of the rest, if there is any. A write that
  -- fails ends it.
  unfoldable pub write_both : State → ℕ → List ℕ → List ℕ → State × Bool
  write_both s offset head [] = write s offset head
  write_both s offset head (b ∷ bs) =
      let s1 = write s offset head in
      if s1.1 then write s1.0 (offset + length head) (b ∷ bs) else s1

  -- `save_rec`
  unfoldable pub save_rec : State → ℕ → ℕ → List ℕ → List ℕ → State × Bool
  unfolding write_both
  save_rec s offset max prefix bytes =
      let len = min (length prefix + length bytes) max in
      let rest = take (len - length prefix) bytes in
      let crc = crc16_from (crc16_from 0xFFFF prefix) rest in
      write_both s offset (head_bytes len crc prefix) rest

  unfoldable pub load : State → Option (List ℕ)
  unfolding load_rec
  load s = load_rec s region_offset max_data region_size

  unfoldable pub save : State → List ℕ → State × Bool
  unfolding save_rec
  save s bytes = save_rec s region_offset max_data [] bytes

  unfoldable pub load_image : State → Option (List ℕ)
  unfolding load_rec
  load_image s = load_rec s image_offset max_image image_region

  unfoldable pub clear_image : State → State × Bool
  clear_image s = write s image_offset (replicate header 0xFF)

  unfoldable pub save_image : State → ℕ → ℕ → List ℕ → State × Bool
  unfolding save_rec
  save_image s width height bits =
      save_rec s image_offset max_image (u16_le_bytes width ++ u16_le_bytes height) bits
