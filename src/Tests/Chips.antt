-- ===== src/Tests/Chips.antt =====
-- A bus with one chip whose registers hold what was written, and the drivers on it.
use paper_name_plate.Base.{ℕ, zero, suc, ◌+◌, ◌%◌, min, ◌<◌, ◌≡◌, ◌≢◌, ◌⊎◌, refl, ap, arith}
use paper_name_plate.Base.{List, [], ◌∷◌, true, ◌==◌, if◌then◌else◌, length, get_or, bit_and}
use paper_name_plate.Base.Digits.{bit_at}
use paper_name_plate.Base.Results.{Result, ok}
use paper_name_plate.Base.Io.{Io, pure, update, ◌>>=◌}
use paper_name_plate.Bus.{Bus}
use paper_name_plate.Bus.Device.{RegisterFile}
use paper_name_plate.Bus.Registers.{update_u8, read_u8, read, write_u8}
use paper_name_plate.Expander.{ioe1_addr, write_pin, bank, split_pin}
use paper_name_plate.Expander.Pins.{levels_of, put_level, write_pin-put_level}
use paper_name_plate.Nfc.Driver.{
  Chip, read_regs, read_reg, read_irq, fold_irq, take_irq, wait_rounds, wait_irq,
}
use paper_name_plate.Nfc.Interrupts.{take_irq-lossless, wait_irq-Answered}

abbrev Registers : Type 0
Registers = ℕ → ℕ

abbrev values : Registers → ℕ → ℕ → List ℕ
values s r zero = []
values s r (suc n) = s r % 256 ∷ values s (r + 1) n

length-values : (s : Registers) (r n : ℕ) → length (values s r n) ≡ n
length-values s r zero = refl
length-values s r (suc n) = ap suc (length-values s (r + 1) n)

-- A write of a register and its value; nothing else is heeded.
abbrev put : List ℕ → Io Registers (Unit {0}) (Unit {0})
put [] s = (s, ok tt)
put (r ∷ []) s = (s, ok tt)
put (r ∷ v ∷ rest) s = (λ q. if q == r then v else s q, ok tt)

abbrev answer : List ℕ → Result (Unit {0}) (List ℕ)
answer bs = ok bs

values-fills :
    (s : Registers) (r n : ℕ) (bs : List ℕ) → answer (values s r n) ≡ ok bs → length bs ≡ n
values-fills s r n bs h = ground (arith, length-values s r n)

abbrev bus : Bus
bus = record {
  State = Registers;
  BusError = Unit {0};
  write = λ addr tx s. put tx s;
  write_read = λ addr tx n s. (s, ok (values s (get_or tx 0 0) n));
  wait = λ us s. s;
  write_read_fills = λ addr tx n s bs h. values-fills s (get_or tx 0 0) n bs h;
}

put-value : (s : Registers) (r v : ℕ) → v < 256 → (put (r ∷ v ∷ []) s).0 r % 256 ≡ v
put-value s r v h = ground arith

put-other : (s : Registers) (r v q : ℕ) → q ≢ r → (put (r ∷ v ∷ []) s).0 q % 256 ≡ s q % 256
put-other s r v q ne = ground arith

one-value :
    (s : Registers) (r : ℕ) (bs : List ℕ) → answer (values s r 1) ≡ ok bs → bs ≡ s r % 256 ∷ []
one-value s r bs h = ground arith

abbrev chip : RegisterFile bus ioe1_addr
chip = record {
  reg = λ s r. s r % 256;
  reg_byte = λ s r. omega arith;
  read_value = λ s r bs h. one-value s r bs h;
  read_keeps = λ s r q. refl;
  write_sets = λ s r v h e. put-value s r v h;
  write_keeps = λ s r v q e ne. put-other s r v q ne;
}

abbrev blank : Registers
blank r = 0

blank-write : (write_pin bus 9 true blank).1 ≡ ok tt
unfolding write_pin bank split_pin update_u8 read_u8 read write_u8 ◌>>=◌ pure
blank-write = refl

write_pin-put_level_example :
    levels_of bus chip (write_pin bus 9 true blank).0 9
    ≡ put_level 9 true (levels_of bus chip blank) 9
write_pin-put_level_example =
    write_pin-put_level bus chip blank 9 9 true (omega arith) (omega arith) blank-write

-- Every register reads as one value.
abbrev nfc : ℕ → Chip bus
nfc v = record { bus = λ r. v; pending_irq = 3; last_request_irq = 0 }

read_irq-ones : (read_irq bus (nfc 1)).1 ≡ ok 0x01010101
unfolding read_irq read_reg read_regs ◌>>=◌ pure
read_irq-ones = refl

take_irq-lossless_example :
    (hit : ℕ) × ((take_irq bus 2 (nfc 1)).1 ≡ ok hit)
    × (bit_at 1 hit ≡ 1)
    × (bit_at 1 (take_irq bus 2 (nfc 1)).0.pending_irq ≡ 0)
take_irq-lossless_example =
    take_irq-lossless bus (nfc 1) 2 0x01010101 1 (omega arith) (omega arith) read_irq-ones

wait_irq-flags : (wait_irq bus 4 1 (nfc 1)).1 ≡ ok 0x01410103
unfolding wait_irq wait_rounds fold_irq read_irq read_reg read_regs ◌>>=◌ pure update
wait_irq-flags = refl

-- No register gives the flag 4: the wait ends with the timeout.
wait_irq-Answered_example :
    (min (bit_at 2 (wait_irq bus 4 1 (nfc 1)).0.pending_irq) 1 ≡ 0)
    × ((bit_and 0x01410103 4 ≢ 0) ⊎ (bit_at 22 0x01410103 ≡ 1))
wait_irq-Answered_example =
    wait_irq-Answered bus (nfc 1) 4 1 0x01410103 2 (omega arith) (omega arith) wait_irq-flags
