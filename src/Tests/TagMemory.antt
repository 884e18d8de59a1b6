-- ===== src/Tests/TagMemory.antt =====
-- The memory of the tag, and commands of a reader.
use paper_name_plate.Base.{take, drop, ◌++◌, ◌+◌, ◌*◌}
use paper_name_plate.Base.{ℕ, ◌≡◌, arith, List, [], ◌∷◌, true, get_or}
use paper_name_plate.Tag.Memory.{new_memory, set_ndef, ndef, found}
use paper_name_plate.Base.{false, inr, refl}
use paper_name_plate.Tag.Commands.{Tag, send, stay, answer, write_page}
use paper_name_plate.Tag.Commands.Effects.{Command, serve, serve-outside, write-read}
use paper_name_plate.Tag.Memory.Layout.{new_memory_lem}
use paper_name_plate.Tag.Memory.Ndef.{ndef-set_ndef}

abbrev tag : List ℕ
tag = new_memory (4 ∷ 5 ∷ 6 ∷ 7 ∷ 8 ∷ 9 ∷ 10 ∷ [])

ndef-set_ndef_example :
    ((set_ndef tag (1 ∷ 2 ∷ [])).1 ≡ true)
    × (ndef (set_ndef tag (1 ∷ 2 ∷ [])).0 ≡ found (1 ∷ 2 ∷ []))
ndef-set_ndef_example =
    ndef-set_ndef tag (1 ∷ 2 ∷ []) (new_memory_lem 4 5 6 7 8 9 10).0 (omega arith)

abbrev idle : Tag
idle = record { memory = tag; dirty = false }

-- A read, and a write of page 2, which changes nothing.
abbrev session : List Command
session = (0x30, 0 ∷ []) ∷ (0xA2, 2 ∷ 1 ∷ 1 ∷ 1 ∷ 1 ∷ []) ∷ []

session-dirty : (serve session idle).dirty ≡ false
unfolding serve answer write_page
session-dirty = refl

serve-outside_example : get_or (serve session idle).memory 20 0 ≡ get_or idle.memory 20 0
serve-outside_example =
    serve-outside session idle 20 (inr (session-dirty, omega arith, omega arith))

write-read_example :
    let (t, a) = answer idle 0xA2 (229 ∷ 1 ∷ 2 ∷ 3 ∷ 4 ∷ []) in
    (a ≡ send (0x0A ∷ []) 4 stay)
    × (answer t 0x30 (229 ∷ [])
        ≡ (t, send (1 ∷ 2 ∷ 3 ∷ 4 ∷ take 12 (drop (229 * 4 + 4) (t.memory ++ t.memory))) 0 stay))
write-read_example =
    write-read idle 229 1 2 3 4 (new_memory_lem 4 5 6 7 8 9 10).0 (omega arith) (omega arith)
