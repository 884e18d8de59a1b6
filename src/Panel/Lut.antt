-- ===== src/Panel/Lut.antt =====
-- The waveform tables of ssd1677/lut.rs: 105 bytes of waveform, and five voltages.
use paper_name_plate.Base.{ℕ, List, [], ◌∷◌}

-- Mode 1 absolute waveform with an erase prefix; best image quality (~4.7 s).
abbrev pub lut_quality : List ℕ
lut_quality =
    0x66 ∷ 0x66 ∷ 0x00 ∷ 0x4A ∷ 0x88 ∷ 0x00 ∷ 0x00 ∷ 0x00 ∷ 0x00 ∷ 0x00 ∷ 0x66 ∷ 0x66 ∷ 0x80 ∷ 0x62
    ∷ 0x00 ∷ 0x00 ∷ 0x00 ∷ 0x00 ∷ 0x00 ∷ 0x00 ∷ 0x66 ∷ 0x66 ∷ 0x88 ∷ 0x60 ∷ 0x00 ∷ 0x00 ∷ 0x00
    ∷ 0x00 ∷ 0x00 ∷ 0x00 ∷ 0x66 ∷ 0x66 ∷ 0xA8 ∷ 0x44 ∷ 0x04 ∷ 0x00 ∷ 0x00 ∷ 0x00 ∷ 0x00 ∷ 0x00
    ∷ 0x00 ∷ 0x00 ∷ 0x00 ∷ 0x00 ∷ 0x00 ∷ 0x00 ∷ 0x00 ∷ 0x00 ∷ 0x00 ∷ 0x00 ∷ 0x05 ∷ 0x05 ∷ 0x05
    ∷ 0x05 ∷ 0x00 ∷ 0x05 ∷ 0x05 ∷ 0x05 ∷ 0x05 ∷ 0x01 ∷ 0x08 ∷ 0x0B ∷ 0x02 ∷ 0x03 ∷ 0x01 ∷ 0x0C
    ∷ 0x02 ∷ 0x07 ∷ 0x02 ∷ 0x01 ∷ 0x01 ∷ 0x00 ∷ 0x02 ∷ 0x00 ∷ 0x01 ∷ 0x00 ∷ 0x00 ∷ 0x00 ∷ 0x00
    ∷ 0x00 ∷ 0x00 ∷ 0x00 ∷ 0x00 ∷ 0x00 ∷ 0x00 ∷ 0x00 ∷ 0x00 ∷ 0x00 ∷ 0x00 ∷ 0x00 ∷ 0x00 ∷ 0x00
    ∷ 0x00 ∷ 0x00 ∷ 0x00 ∷ 0x00 ∷ 0x00 ∷ 0x00 ∷ 0x00 ∷ 0x00 ∷ 0x22 ∷ 0x22 ∷ 0x22 ∷ 0x22 ∷ 0x22
    ∷ 0x17 ∷ 0x46 ∷ 0xA8 ∷ 0x36 ∷ 0x30 ∷ []

-- Mode 1 64-frame absolute four-gray waveform (~0.45 s).
abbrev pub lut_text : List ℕ
lut_text =
    0x55 ∷ 0x55 ∷ 0x55 ∷ 0x55 ∷ 0x55 ∷ 0x5A ∷ 0xAA ∷ 0xAA ∷ 0x00 ∷ 0x00 ∷ 0xAA ∷ 0x95 ∷ 0x55 ∷ 0x55
    ∷ 0x55 ∷ 0x5A ∷ 0x82 ∷ 0xA0 ∷ 0x00 ∷ 0x00 ∷ 0xAA ∷ 0xA5 ∷ 0x55 ∷ 0x55 ∷ 0x55 ∷ 0x5A ∷ 0xA0
    ∷ 0x00 ∷ 0x00 ∷ 0x00 ∷ 0xAA ∷ 0xAA ∷ 0xAA ∷ 0xAA ∷ 0x55 ∷ 0x55 ∷ 0x55 ∷ 0x50 ∷ 0x00 ∷ 0x00
    ∷ 0x00 ∷ 0x00 ∷ 0x00 ∷ 0x00 ∷ 0x00 ∷ 0x00 ∷ 0x00 ∷ 0x00 ∷ 0x00 ∷ 0x00 ∷ 0x02 ∷ 0x02 ∷ 0x02
    ∷ 0x02 ∷ 0x00 ∷ 0x02 ∷ 0x02 ∷ 0x02 ∷ 0x02 ∷ 0x00 ∷ 0x02 ∷ 0x02 ∷ 0x02 ∷ 0x02 ∷ 0x00 ∷ 0x02
    ∷ 0x02 ∷ 0x02 ∷ 0x02 ∷ 0x00 ∷ 0x02 ∷ 0x02 ∷ 0x02 ∷ 0x02 ∷ 0x00 ∷ 0x02 ∷ 0x02 ∷ 0x02 ∷ 0x02
    ∷ 0x00 ∷ 0x02 ∷ 0x02 ∷ 0x02 ∷ 0x02 ∷ 0x00 ∷ 0x02 ∷ 0x02 ∷ 0x02 ∷ 0x02 ∷ 0x00 ∷ 0x00 ∷ 0x00
    ∷ 0x00 ∷ 0x00 ∷ 0x00 ∷ 0x00 ∷ 0x00 ∷ 0x00 ∷ 0x00 ∷ 0x00 ∷ 0x8F ∷ 0x8F ∷ 0x8F ∷ 0x8F ∷ 0x8F
    ∷ 0x17 ∷ 0x41 ∷ 0xA8 ∷ 0x32 ∷ 0x30 ∷ []

-- Mode 2 48-frame absolute four-gray waveform (~0.34 s).
abbrev pub lut_fast : List ℕ
lut_fast =
    0x55 ∷ 0x55 ∷ 0x55 ∷ 0x55 ∷ 0x55 ∷ 0x5A ∷ 0xAA ∷ 0xAA ∷ 0x00 ∷ 0x00 ∷ 0xAA ∷ 0x95 ∷ 0x55 ∷ 0x55
    ∷ 0x55 ∷ 0x5A ∷ 0x82 ∷ 0xAC ∷ 0x00 ∷ 0x00 ∷ 0xAA ∷ 0xA5 ∷ 0x55 ∷ 0x55 ∷ 0x55 ∷ 0x5A ∷ 0xAC
    ∷ 0x00 ∷ 0x00 ∷ 0x00 ∷ 0xAA ∷ 0xAA ∷ 0xAA ∷ 0xAA ∷ 0x55 ∷ 0x55 ∷ 0x55 ∷ 0x50 ∷ 0x00 ∷ 0x00
    ∷ 0x00 ∷ 0x00 ∷ 0x00 ∷ 0x00 ∷ 0x00 ∷ 0x00 ∷ 0x00 ∷ 0x00 ∷ 0x00 ∷ 0x00 ∷ 0x01 ∷ 0x01 ∷ 0x01
    ∷ 0x01 ∷ 0x00 ∷ 0x01 ∷ 0x01 ∷ 0x01 ∷ 0x01 ∷ 0x00 ∷ 0x01 ∷ 0x01 ∷ 0x01 ∷ 0x01 ∷ 0x00 ∷ 0x01
    ∷ 0x01 ∷ 0x01 ∷ 0x01 ∷ 0x00 ∷ 0x02 ∷ 0x02 ∷ 0x02 ∷ 0x02 ∷ 0x00 ∷ 0x02 ∷ 0x02 ∷ 0x02 ∷ 0x02
    ∷ 0x00 ∷ 0x02 ∷ 0x02 ∷ 0x02 ∷ 0x02 ∷ 0x00 ∷ 0x02 ∷ 0x02 ∷ 0x02 ∷ 0x02 ∷ 0x00 ∷ 0x00 ∷ 0x00
    ∷ 0x00 ∷ 0x00 ∷ 0x00 ∷ 0x00 ∷ 0x00 ∷ 0x00 ∷ 0x00 ∷ 0x00 ∷ 0x8F ∷ 0x8F ∷ 0x8F ∷ 0x8F ∷ 0x8F
    ∷ 0x17 ∷ 0x41 ∷ 0xA8 ∷ 0x32 ∷ 0x30 ∷ []

-- Group meaning: 0 = hold dark, 1 = black->white, 2 = white->black, 3 = hold light.
abbrev pub lut_fastest : List ℕ
lut_fastest =
    0x00 ∷ 0x00 ∷ 0x00 ∷ 0x00 ∷ 0x00 ∷ 0x00 ∷ 0x00 ∷ 0x00 ∷ 0x00 ∷ 0x00 ∷ 0x6A ∷ 0xA0 ∷ 0x00 ∷ 0x00
    ∷ 0x00 ∷ 0x00 ∷ 0x00 ∷ 0x00 ∷ 0x00 ∷ 0x00 ∷ 0x95 ∷ 0x50 ∷ 0x00 ∷ 0x00 ∷ 0x00 ∷ 0x00 ∷ 0x00
    ∷ 0x00 ∷ 0x00 ∷ 0x00 ∷ 0x00 ∷ 0x00 ∷ 0x00 ∷ 0x00 ∷ 0x00 ∷ 0x00 ∷ 0x00 ∷ 0x00 ∷ 0x00 ∷ 0x00
    ∷ 0x00 ∷ 0x00 ∷ 0x00 ∷ 0x00 ∷ 0x00 ∷ 0x00 ∷ 0x00 ∷ 0x00 ∷ 0x00 ∷ 0x00 ∷ 0x02 ∷ 0x02 ∷ 0x02
    ∷ 0x02 ∷ 0x00 ∷ 0x01 ∷ 0x01 ∷ 0x00 ∷ 0x00 ∷ 0x00 ∷ 0x00 ∷ 0x00 ∷ 0x00 ∷ 0x00 ∷ 0x00 ∷ 0x00
    ∷ 0x00 ∷ 0x00 ∷ 0x00 ∷ 0x00 ∷ 0x00 ∷ 0x00 ∷ 0x00 ∷ 0x00 ∷ 0x00 ∷ 0x00 ∷ 0x00 ∷ 0x00 ∷ 0x00
    ∷ 0x00 ∷ 0x00 ∷ 0x00 ∷ 0x00 ∷ 0x00 ∷ 0x00 ∷ 0x00 ∷ 0x00 ∷ 0x00 ∷ 0x00 ∷ 0x00 ∷ 0x00 ∷ 0x00
    ∷ 0x00 ∷ 0x00 ∷ 0x00 ∷ 0x00 ∷ 0x00 ∷ 0x00 ∷ 0x00 ∷ 0x00 ∷ 0x8F ∷ 0x8F ∷ 0x8F ∷ 0x8F ∷ 0x8F
    ∷ 0x17 ∷ 0x46 ∷ 0xA8 ∷ 0x32 ∷ 0x30 ∷ []
