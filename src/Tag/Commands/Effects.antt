-- ===== src/Tag/Commands/Effects.antt =====
-- What the commands of a reader do to the tag's memory.
use paper_name_plate.Base.{
  ℕ, zero, suc, ◌+◌, ◌-◌, ◌*◌, ◌++◌, ap₂, sym, ltb, length-append, if◌then◌else◌, ◌%◌, ◌≤◌, ◌<◌,
  ◌≡◌, ◌⊎◌, refl, ap, ◌∙◌, inl, inr, arith, List, [], ◌∷◌, false,
}
use paper_name_plate.Base.{
  length, get_or, take, drop, length-take, get_or-write_at_out, get_or-write_at_in, write_at,
  length-write_at,
}
use native.Mathlib.Decide.{dec_lt}
use paper_name_plate.Tag.Memory.{mem_bytes}
use paper_name_plate.Tag.Commands.{Tag, send, stay, wrapped, answer, write_page, read_pages}

-- A command of a reader, and the commands of a session, in order.
abbrev pub Command : Type 0
Command = ℕ × List ℕ

unfoldable pub serve : List Command → Tag → Tag
serve [] t = t
serve (c ∷ cs) t = serve cs (answer t c.0 c.1).0

write_page-length :
    (t : Tag) (page : ℕ) (bytes : List ℕ)
    → length (write_page t page bytes).0.memory ≡ length t.memory
unfolding write_page
write_page-length t page bytes = ground (arith, length-write_at bytes t.memory (page * 4))

-- A write changes only the bytes of its page, which is 3 at least, and marks a user page.
write_page-outside :
    (t : Tag) (page : ℕ) (bytes : List ℕ) (j : ℕ)
    → length bytes ≤ 4
    → ((j < 12) ⊎ ((write_page t page bytes).0.dirty ≡ false) × (16 ≤ j) × (j < 904))
    → get_or (write_page t page bytes).0.memory j 0 ≡ get_or t.memory j 0
unfolding write_page
write_page-outside t page bytes j l h =
    ground (arith, get_or-write_at_out bytes t.memory (page * 4) j 0)

pub answer-outside :
    (t : Tag) (op : ℕ) (args : List ℕ) (j : ℕ)
    → ((j < 12) ⊎ ((answer t op args).0.dirty ≡ false) × (16 ≤ j) × (j < 904))
    → get_or (answer t op args).0.memory j 0 ≡ get_or t.memory j 0
unfolding answer
answer-outside t op args j h =
    let bytes = take 4 (drop 1 args) in
    ground (
      arith,
      write_page-outside t (get_or args 0 0) bytes j (omega (arith, length-take 4 (drop 1 args))),
    )

pub answer-dirty :
    (t : Tag) (op : ℕ) (args : List ℕ) → (answer t op args).0.dirty ≡ false → t.dirty ≡ false
unfolding answer write_page
answer-dirty t op args h = ground arith

answer-length :
    (t : Tag) (op : ℕ) (args : List ℕ) → length (answer t op args).0.memory ≡ length t.memory
unfolding answer
answer-length t op args =
    ground (arith, write_page-length t (get_or args 0 0) (take 4 (drop 1 args)))

serve-dirty : (cs : List Command) (t : Tag) → (serve cs t).dirty ≡ false → t.dirty ≡ false
unfolding serve
serve-dirty [] t h = h
serve-dirty (c ∷ cs) t h = answer-dirty t c.0 c.1 (serve-dirty cs (answer t c.0 c.1).0 h)

-- No command of a reader changes the first 12 bytes, which hold the UID and the lock bytes, and
-- as long as the tag is not marked as written, no command has changed the user area.
pub serve-outside :
    (cs : List Command) (t : Tag) (j : ℕ)
    → ((j < 12) ⊎ ((serve cs t).dirty ≡ false) × (16 ≤ j) × (j < 904))
    → get_or (serve cs t).memory j 0 ≡ get_or t.memory j 0
unfolding serve
serve-outside [] t j h = refl
serve-outside (c ∷ cs) t j h =
    serve-outside cs (answer t c.0 c.1).0 j h
    ∙ answer-outside t c.0 c.1 j (elim h [
      | inl p ↦ inl p
      | inr (d, p, q) ↦ inr (serve-dirty cs (answer t c.0 c.1).0 d, p, q)
    ])

write_page-done :
    (t : Tag) (page : ℕ) (bytes : List ℕ)
    → 3 ≤ page
    → page < 231
    → ((write_page t page bytes).0.memory ≡ write_at t.memory (page * 4) bytes)
      × ((write_page t page bytes).1 ≡ send (0x0A ∷ []) 4 stay)
unfolding write_page
write_page-done t page bytes h k = ground arith

read_pages-done :
    (t : Tag) (page : ℕ)
    → page < 231
    → read_pages t page ≡ send (wrapped t.memory (page * 4) 16) 0 stay
unfolding read_pages
read_pages-done t page k = ground arith

-- The byte of the written page at the index that the reading computes.
byte_written :
    (t : Tag) (page i k : ℕ) (bytes : List ℕ)
    → length t.memory ≡ mem_bytes
    → length bytes ≡ 4
    → 3 ≤ page
    → page < 231
    → k < 4
    → i ≡ page * 4 + k
    → get_or (write_page t page bytes).0.memory (i % mem_bytes) 0 ≡ get_or bytes k 0
byte_written t page i k bytes l b h p q e =
    let at : i % mem_bytes ≡ page * 4 + k = omega arith in
    ap (λ m. get_or m (i % mem_bytes) 0) (write_page-done t page bytes h p).0
    ∙ ap (λ j. get_or (write_at t.memory (page * 4) bytes) j 0) at
    ∙ get_or-write_at_in bytes t.memory (page * 4) k 0 (omega arith) (omega arith)

get_or-twice :
    (xs ys : List ℕ) (i : ℕ)
    → get_or (xs ++ ys) i 0
      ≡ (if ltb i (length xs) then get_or xs i 0 else get_or ys (i - length xs) 0)
get_or-twice [] ys i = ground arith
get_or-twice (x ∷ xs) ys zero = ground arith
get_or-twice (x ∷ xs) ys (suc i) = ground (arith, get_or-twice xs ys i)

drop-cons : (xs : List ℕ) (i : ℕ) → i < length xs → drop i xs ≡ get_or xs i 0 ∷ drop (i + 1) xs
drop-cons [] i h = absurd (omega arith)
drop-cons (x ∷ xs) zero h = refl
drop-cons (x ∷ xs) (suc i) h =
    let e : suc (i + 1) ≡ suc i + 1 = omega arith in
    drop-cons xs i (omega arith) ∙ ap (λ k. get_or xs i 0 ∷ drop k (x ∷ xs)) e

-- A reading that goes round the end of the memory reads two copies of it in a row.
wrapped-twice :
    (m : List ℕ) (i n : ℕ)
    → length m ≡ 924
    → i + n ≤ 1848
    → wrapped m i n ≡ take n (drop i (m ++ m))
wrapped-twice m i zero l h = refl
wrapped-twice m i (suc n) l h =
    let at : get_or m (i % 924) 0 ≡ get_or (m ++ m) i 0 = elim (dec_lt i 924) [
      | yes p ↦
          let e : i % 924 ≡ i = omega arith in
          ap (λ j. get_or m j 0) e ∙ ground (arith, get_or-twice m m i)
      | no p ↦
          let e : i % 924 ≡ i - 924 = omega arith in
          ap (λ j. get_or m j 0) e ∙ ground (arith, get_or-twice m m i, l)
    ] in
    ap₂ (λ b q. b ∷ q) at (wrapped-twice m (i + 1) n l (omega arith))
    ∙ ap (take (suc n)) (sym (drop-cons (m ++ m) i (omega (arith, length-append m m))))

-- A page from 3 on that a reader writes is acknowledged, and read back in front of the twelve bytes
-- behind it, which go on at the start of the memory, of 924 bytes, behind its end.
pub write-read :
    (t : Tag) (page b0 b1 b2 b3 : ℕ)
    → length t.memory ≡ mem_bytes
    → 3 ≤ page
    → page < 231
    → let (t', a) = answer t 0xA2 (page ∷ b0 ∷ b1 ∷ b2 ∷ b3 ∷ []) in
      (a ≡ send (0x0A ∷ []) 4 stay)
      × (answer t' 0x30 (page ∷ []) ≡ (
        t',
        send (b0 ∷ b1 ∷ b2 ∷ b3 ∷ take 12 (drop (page * 4 + 4) (t'.memory ++ t'.memory))) 0 stay,
      ))
unfolding answer
write-read t page b0 b1 b2 b3 l h k =
    let bytes = b0 ∷ b1 ∷ b2 ∷ b3 ∷ [] in
    let m = (write_page t page bytes).0.memory in
    let at = λ (i j : ℕ) (q : j < 4) (e : i ≡ page * 4 + j).
      byte_written t page i j bytes l refl h k q e in
    let four : page * 4 + 1 + 1 + 1 + 1 ≡ page * 4 + 4 = omega arith in
    let behind : wrapped m (page * 4 + 1 + 1 + 1 + 1) 12 ≡ take 12 (drop (page * 4 + 4) (m ++ m)) =
      ap (λ i. wrapped m i 12) four
      ∙ wrapped-twice m (page * 4 + 4) 12 (omega (arith, l, write_page-length t page bytes))
          (omega arith) in
    (
      (write_page-done t page bytes h k).1,
      ap (λ a. ((write_page t page bytes).0, a))
            (read_pages-done (write_page t page bytes).0 page k)
          ∙ (λ i. (
            (write_page t page bytes).0,
            send
                (at (page * 4) 0 (omega arith) (omega arith) i
                  ∷ at (page * 4 + 1) 1 (omega arith) (omega arith) i
                  ∷ at (page * 4 + 1 + 1) 2 (omega arith) (omega arith) i
                  ∷ at (page * 4 + 1 + 1 + 1) 3 (omega arith) (omega arith) i
                  ∷ behind i)
                0 stay,
          )),
    )
