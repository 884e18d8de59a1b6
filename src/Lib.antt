-- ===== src/Lib.antt =====
-- paper_name_plate: the firmware of an electronic name plate, modelled and verified.
--
-- The program shows a content (name, mail, accounts, a note, a link, an image) on an electronic paper
-- panel. The content arrives over Bluetooth (app/ble.rs), as a text or an image in packets, or is
-- written by a phone into the NFC tag that the plate emulates (t2t_emu.rs), as an NDEF message; it is
-- kept in flash memory (config_store.rs) and served again over both. In reader mode the plate reads
-- other tags (isodep.rs, ndef.rs). The application (app/mod.rs) owns the drivers and the content: its
-- `tick` gives time to the tag or the reader, the touch panel and the buttons, and the Bluetooth
-- session calls it, and hands over what its receiver has ready.
--
-- The files, by part of the program; paths are from the repository's root.
--   Plate        src/app/plate.rs: images (`MonoImage`: Plate/Image, base64: Plate/Base64), the
--                content as text (`to_plain`, `apply_plain`, `validate_plain`: Plate/Plain) and as an
--                NDEF message (`to_ndef`: Plate/Ndef/Write, `apply_ndef`: Plate/Ndef/Read,
--                `record_at`: Plate/Ndef/Record).
--                `draw`, `draw_image` and `Scale2x` are Plate/Draw; the pixels that u8g2_fonts gives
--                for a text are the record `Fonts`.
--   Ble          src/app/ble.rs: `crc32` (Ble/Crc) and the receiver `ImgRx` (Ble/Receive). A method
--                takes the state and returns the new one; what `millis()` returns is an argument.
--                `take_image`, `take_content` and `take_clear` are what the session loop does to the
--                receiver between two rounds of the radio.
--   Hci          src/app/ble.rs: `BufferedHci`, over the connector of esp-radio, which is the record
--                `Radio`. Of the buffer only the bytes up to `end` are kept.
--   Tag          src/t2t_emu.rs: the memory of the emulated tag (`new`, `uid`, `set_ndef`, `ndef`:
--                Tag/Memory), the commands of a reader (`handle_command`: Tag/Commands), over the
--                chip's `target_transmit`, which is the record `Transmitter`, and the states
--                (`start`, `stop`, `goto_off` and the like: Tag/States, `update`:
--                Tag/States/Update), over the driver of Nfc. Whether the log is on, and so reads a
--                register, is an argument of `update`.
--   Storage      src/config_store.rs: records in flash. `esp_storage::FlashStorage` is the record
--                `Flash` of Storage/Flash, whose laws are the documented behaviour of a read and a
--                write.
--   Panel        src/ssd1677/framebuffer.rs: the frame buffer and its pixels (Panel/FrameBuffer);
--                src/ssd1677/mod.rs: frames, bring-up and windows (Panel/Driver), activation and the
--                refresh paths (Panel/Driver/Refresh), over the SPI bus, the pins and the delay of
--                embedded-hal, which are the record `Wire`; src/ssd1677/lut.rs (Panel/Lut).
--                `Memory` and `controller` (Panel/Driver/Chip) are a controller at the end of a wire
--                that never fails, as far as the writes of whole planes and their activation go.
--   IsoDep       src/isodep.rs: activation, exchange and deselection, over the reader's `transceive`,
--                which is the record `Link`.
--   Reader       src/ndef.rs: `read_type4` (Reader/Type4) over an exchange of commands, which is the
--                record `Apdus` and which IsoDep fills (`of_isodep`); `first_record` and `summarize`
--                (Reader/First).
--   Bus          the I2C bus of embedded-hal, which is the record `Bus`, and src/i2c_reg.rs on it
--                (Bus/Registers); `RegisterFile` (Bus/Device) says of a chip that its registers hold
--                what was written.
--   Expander     src/ioe1.rs: the port expander. Power: src/pm1.rs, the power controller. Touch:
--                src/ft6336.rs, the touch controller.
--   Nfc          src/st25r3916.rs: registers, FIFO and interrupts of the NFC chip (Nfc/Driver),
--                bring-up (Nfc/Setup), frames and timers (Nfc/Transceive), the reader's side
--                (Nfc/Poll). Its constants are Nfc/Reg, Nfc/Cmd, Nfc/Irq and Nfc/Op, as in the code.
--                The driver fills the records that Tag and IsoDep ask for (`transmitter_of`,
--                `link_of`).
--   Board        src/board.rs: the power and reset sequences of the parts, and the repeated
--                attempts of `Board::init`.
--   App          src/app/mod.rs: the state of `App`, and calls of the drivers in it, over the record
--                `Machine` (App): the world outside, with the buses, the flash, the clock, the pins
--                and the fonts. The panel and its sleep are App/Display; what changes, keeps and
--                restores the content, App/Store; the touch panel and the buttons, App/Inputs; the
--                tag's share of time and the reader, App/Tags; `tick`, the status line and the
--                decision to sleep, App/Loop; `App::new` and the start of `run`, App/Start.
--                src/app/ui.rs is App/Ui, over embedded_graphics, which is the record `Graphics`;
--                its intersection of rectangles is `Geometry` of Panel/FrameBuffer/Fill.
--                App/Session is the loop of `ble_session` in src/app/ble.rs, over the server of
--                bleps, which is the record `Gatt`. App/Kept, App/Whole and App/Store/Returns follow
--                the content, its image and the results through the calls.
--   Text         what the code uses of `str`: UTF-8 with its lossy decoding, trimming, splitting.
--   Base         tests, lists, slices, words and bits that the parts share.
--   Tests        concrete runs, and each result at one of them.
--
-- Numbers are natural numbers; a cast to a narrower word is written out (`% 256`). A byte is a number,
-- and a character is its code point. A function of the code that may index out of range, or subtract
-- below zero, is modelled behind the tests that the code makes.
--
-- A driver's call is a function from a state to a state and a result or an error (`Io`, Base/Io): the
-- state comes back after an error too.
--
-- Fuel. The loops of `ndef`, `apply_ndef` and `fix_me_flag` pass a byte at least in each round, and
-- the one of `read_type4` reads one, so that the length of the data is fuel enough; the results say
-- so for `apply_ndef` and `read_type4`. The 32 rounds of `exchange` and of the anticollision, and the
-- rounds of the waits for an interrupt or the oscillator, are the code's own bounds. `goto_off` and
-- `goto_idle` call each other, as long as a field comes and the oscillator does not, to which the code
-- sets no bound: their number of calls is an argument, and `too_deep` is its end.
--
-- The loops over time, which are the merging in `fill`, the slice of `run_emulation_slice` and the
-- session, take their number of rounds as an argument, since only the clock and the radio end them:
-- `out_of_rounds` is the end of these rounds, and no error of the code. `fill-merges` says which
-- number is enough. A panic of the code is the error `panicked`.
--
-- Not modelled: the start of the Bluetooth stack, with the advertising data and the table of
-- attributes, which are calls and values of bleps; the bring-up in `Board::init`, the programs of
-- src/bin and `main_loop`, which call esp-hal or only dispatch; the set-up of the wake-up pins and of
-- the timer in front of deep sleep; `draw_base_screen`, which nothing calls; the texts of the log.
-- Logging has no counterpart but where it asks the chip.
pub mod Base
pub mod Text
pub mod Plate
pub mod Panel
pub mod Ble
pub mod Tag
pub mod Storage
pub mod IsoDep
pub mod Reader
pub mod Bus
pub mod Expander
pub mod Power
pub mod Touch
pub mod Nfc
pub mod Tests
pub mod App
pub mod Board
pub mod Hci
