-- ===== src/Tests/TagStates.antt =====
-- Steps of the emulated tag on chips whose registers never change.
use paper_name_plate.Base.{ℕ, zero, suc, ◌+◌, ◌≡◌, ◌⊎◌, inr, refl, ap, arith}
use paper_name_plate.Base.{List, [], ◌∷◌, true, false, ◌==◌, if◌then◌else◌, length, get_or}
use paper_name_plate.Base.Results.{Result, ok}
use paper_name_plate.Base.Io.{pure, update, gets, ◌>>=◌}
use paper_name_plate.Bus.{Bus}
use paper_name_plate.Nfc.Driver.{
  take_irq, fold_irq, read_irq, read_reg, read_regs, write_reg, modify_reg, command, clear_irq,
}
use paper_name_plate.Tag.States.{Emulator, new, field_off, off, idle}
use paper_name_plate.Tag.States.{
  goto_off, off_or, on_chip, set_bitrate, set_wakeup, enter, field_present,
}
use paper_name_plate.Tag.States.Update.{update_tag, update_from, update_idle, report}
use paper_name_plate.Tag.States.Moves.{Move, update_tag-Move}
use paper_name_plate.Tag.States.Written.{Tracks, SameUser, update_tag-Tracks, field_off-SameUser}

-- What a chip gives for the byte that selects a register.
abbrev frozen_bytes : (ℕ → ℕ) → ℕ → ℕ → List ℕ
frozen_bytes f r zero = []
frozen_bytes f r (suc n) = f r ∷ frozen_bytes f (r + 1) n

length-frozen_bytes : (f : ℕ → ℕ) (r n : ℕ) → length (frozen_bytes f r n) ≡ n
length-frozen_bytes f r zero = refl
length-frozen_bytes f r (suc n) = ap suc (length-frozen_bytes f (r + 1) n)

abbrev frozen_answer : List ℕ → Result (Unit {0}) (List ℕ)
frozen_answer bs = ok bs

frozen_fills :
    (f : ℕ → ℕ) (r n : ℕ) (bs : List ℕ) → frozen_answer (frozen_bytes f r n) ≡ ok bs → length bs ≡ n
frozen_fills f r n bs h = ground (arith, length-frozen_bytes f r n)

abbrev frozen : (ℕ → ℕ) → Bus
frozen f = record {
  State = Unit {0};
  BusError = Unit {0};
  write = λ addr tx s. (s, ok tt);
  write_read = λ addr tx n s. (s, ok (frozen_bytes f (get_or tx 0 0) n));
  wait = λ us s. s;
  write_read_fills = λ addr tx n s bs h. frozen_fills f (get_or tx 0 0) n bs h;
}

-- A field, and an oscillator that is stable.
abbrev field : Bus
field = frozen (λ r. 0x50)

-- No field: the register of the target's interrupts says that it is gone.
abbrev no_field : Bus
no_field = frozen (λ r. if r == 0x5B then 0x08 else 0)

abbrev fresh : (b : Bus) → b.State → Emulator b
fresh b s =
    new b (4 ∷ 5 ∷ 6 ∷ 7 ∷ 8 ∷ 9 ∷ 10 ∷ [])
      (record { bus = s; pending_irq = 0; last_request_irq = 0 })

update_tag-Move_example : Move off (update_tag field false 1 (fresh field tt)).0.state
update_tag-Move_example = update_tag-Move field false 1 (fresh field tt)

abbrev left_alone : Emulator no_field
left_alone = record (fresh no_field tt) { state = idle }

update_tag-Tracks_example :
    ((update_tag no_field false 1 left_alone).1 ≡ ok (field_off true))
    ⊎ Tracks left_alone.tag.memory (update_tag no_field false 1 left_alone).0.tag
update_tag-Tracks_example =
    update_tag-Tracks no_field false 1 left_alone left_alone.tag.memory (inr (λ j l u. refl))

left_alone-off : (update_tag no_field false 1 left_alone).1 ≡ ok (field_off false)
unfolding update_tag update_from update_idle goto_off off_or on_chip set_bitrate set_wakeup enter
    report take_irq fold_irq read_irq read_reg read_regs write_reg modify_reg command clear_irq
    field_present ◌>>=◌ pure update gets
left_alone-off = refl

field_off-SameUser_example :
    SameUser left_alone.tag.memory (update_tag no_field false 1 left_alone).0.tag.memory
field_off-SameUser_example =
    field_off-SameUser no_field false 1 left_alone left_alone.tag.memory (inr (λ j l u. refl))
      left_alone-off
