-- ===== src/Storage/Record/RoundTrip.antt =====
-- What `save_rec` wrote, `load_rec` reads back.
use paper_name_plate.Base.{
  ℕ, ◌+◌, ◌-◌, ◌/◌, ◌%◌, ◌^◌, ◌≤◌, ◌<◌, ◌≡◌, refl, sym, ap, ap₂, ◌∙◌, ◌⊎◌, inl, inr, arith, min,
}
use paper_name_plate.Base.{List, [], ◌∷◌, ◌++◌, some, true, Bool-cases}
use paper_name_plate.Base.{
  length, take, length-append, length-take, append-inj, append-nil, bytes_eq,
}
use paper_name_plate.Base.Bits.{bit_or-zero}
use paper_name_plate.Base.Bytes.{u16_le}
use paper_name_plate.Storage.Flash.{
  Flash, cells, length-cells, cells-append, cells-write, cells-write_outside,
}
use paper_name_plate.Storage.Crc.{crc16, crc16_byte, crc16_from}
use paper_name_plate.Storage.Record.{
  head_bytes, header_len, load_data, load_rec, save_rec, write_both,
}
use paper_name_plate.Storage.Record.{magic}

crc16_from-append :
    (crc : ℕ) (xs ys : List ℕ) → crc16_from crc (xs ++ ys) ≡ crc16_from (crc16_from crc xs) ys
unfolding crc16_from
crc16_from-append crc [] ys = refl
crc16_from-append crc (x ∷ xs) ys = crc16_from-append (crc16_byte crc x) xs ys

header_len-head_bytes : (len crc : ℕ) → len < 65536 → header_len (head_bytes len crc []) ≡ len
unfolding header_len head_bytes
header_len-head_bytes len crc h =
    let z : len / 2 ^ 16 % 256 ≡ 0 = omega arith in
    let w : u16_le (len % 256) (len / 256 % 256) ≡ len = omega arith in rw (z, w) (bit_or-zero len)

module _ (fl : Flash) where
  open fl use {State, size, cell, read, write, read_cells}

  cells_two_writes :
      (s : State) (offset : ℕ) (head rest : List ℕ)
      → (write s offset head).1 ≡ true
      → let s1 = (write s offset head).0 in
        let s2 = write s1 (offset + length head) rest in
        s2.1 ≡ true → cells (cell s2.0) offset (length head + length rest) ≡ head ++ rest
  cells_two_writes s offset head rest ok1 ok2 =
      let s1 = (write s offset head).0 in
      cells-append _ offset (length head) (length rest)
      ∙ ap₂ ◌++◌
          (cells-write_outside fl s1 (offset + length head) rest offset (length head) ok2
              (inl (omega arith))
            ∙ cells-write fl s offset head ok1)
          (cells-write fl s1 (offset + length head) rest ok2)

  -- Both writes together leave the head and the rest, one behind the other.
  cells-write_both :
      (s : State) (offset : ℕ) (head rest : List ℕ)
      → (write_both fl s offset head rest).1 ≡ true
      → cells (cell (write_both fl s offset head rest).0) offset (length head + length rest)
        ≡ head ++ rest
  unfolding write_both
  cells-write_both s offset head [] ok =
      let e : length head + 0 ≡ length head = omega arith in
      rw e (cells-write fl s offset head ok ∙ sym (append-nil head))
  cells-write_both s offset head (b ∷ bs) ok = elim (Bool-cases (write s offset head).1) [
    | inl first ↦
        rw (first, write_both)
          (cells_two_writes s offset head (b ∷ bs) first (rw (first, write_both) at ok))
    | inr failed ↦ absurd (ground arith)
  ]

  -- Everything outside the two ranges stays.
  pub cells-write_both_outside :
      (s : State) (offset : ℕ) (head rest : List ℕ) (a n : ℕ)
      → (write_both fl s offset head rest).1 ≡ true
      → (a + n ≤ offset) ⊎ (offset + (length head + length rest) ≤ a)
      → cells (cell (write_both fl s offset head rest).0) a n ≡ cells (cell s) a n
  unfolding write_both
  cells-write_both_outside s offset head [] a n ok h =
      cells-write_outside fl s offset head a n ok (ground arith)
  cells-write_both_outside s offset head (b ∷ bs) a n ok h =
      elim (Bool-cases (write s offset head).1) [
        | inl first ↦
            rw (first, write_both)
              (cells-write_outside fl (write s offset head).0 (offset + length head) (b ∷ bs) a n
                  (rw (first, write_both) at ok) (ground arith)
                ∙ cells-write_outside fl s offset head a n first (ground arith))
        | inr failed ↦ absurd (ground arith)
      ]

  load_data-some :
      (s : State) (offset len : ℕ) (msg : List ℕ)
      → len < 65536
      → read s (offset + 8) len ≡ some msg
      → load_data fl s offset (head_bytes len (crc16 msg) []) ≡ some msg
  unfolding load_data
  load_data-some s offset len msg l r =
      rw (header_len-head_bytes len (crc16 msg) l, r, load_data) (unfold head_bytes in ground arith)

  load_rec-eq-load_data :
      (s : State) (offset max region len : ℕ) (hdr : List ℕ)
      → bytes_eq (take 4 hdr) magic ≡ true
      → header_len hdr ≡ len
      → 1 ≤ len
      → len ≤ max
      → 8 + len ≤ region
      → read s offset 8 ≡ some hdr
      → load_rec fl s offset max region ≡ load_data fl s offset hdr
  unfolding load_rec
  load_rec-eq-load_data s offset max region len hdr m e one fits room r = ground arith

  load_rec-some :
      (s : State) (offset max region len : ℕ) (msg : List ℕ)
      → 1 ≤ len
      → len < 65536
      → len ≤ max
      → 8 + len ≤ region
      → read s offset 8 ≡ some (head_bytes len (crc16 msg) [])
      → read s (offset + 8) len ≡ some msg
      → load_rec fl s offset max region ≡ some msg
  load_rec-some s offset max region len msg one small fits room r q =
      load_rec-eq-load_data s offset max region len (head_bytes len (crc16 msg) [])
        (unfold head_bytes in refl) (header_len-head_bytes len (crc16 msg) small) one fits room r
      ∙ load_data-some s offset len msg small q

  -- What the cells hold of a record, `load_rec` gives back.
  load_rec_of_cells :
      (s : State) (offset max region len : ℕ) (msg : List ℕ)
      → length msg ≡ len
      → 1 ≤ len
      → len < 65536
      → len ≤ max
      → 8 + len ≤ region
      → offset + (8 + len) ≤ size
      → cells (cell s) offset (8 + len) ≡ head_bytes len (crc16 msg) [] ++ msg
      → load_rec fl s offset max region ≡ some msg
  load_rec_of_cells s offset max region len msg lm one small fits room inside e =
      load_rec-some s offset max region len msg one small fits room
        (read_cells s offset 8 (omega arith) ∙ ap some both.0)
        (read_cells s (offset + 8) len (omega arith) ∙ ap some both.1)
    where
      both :
          (cells (cell s) offset 8 ≡ head_bytes len (crc16 msg) [])
          × (cells (cell s) (offset + 8) len ≡ msg)
      both =
          append-inj _ _ _ _ (length-cells (cell s) offset 8 ∙ unfold head_bytes in refl)
            (sym (cells-append (cell s) offset 8 len) ∙ e)

  load_rec-write_both :
      (s : State) (offset max region len crc : ℕ) (prefix rest : List ℕ)
      → length prefix + length rest ≡ len
      → crc ≡ crc16 (prefix ++ rest)
      → 1 ≤ len
      → len < 65536
      → len ≤ max
      → 8 + len ≤ region
      → offset + (8 + len) ≤ size
      → (write_both fl s offset (head_bytes len crc prefix) rest).1 ≡ true
      → load_rec fl (write_both fl s offset (head_bytes len crc prefix) rest).0 offset max region
        ≡ some (prefix ++ rest)
  load_rec-write_both s offset max region len crc prefix rest l c one small fits room inside ok =
      load_rec_of_cells _ offset max region len (prefix ++ rest) (length-append prefix rest ∙ l) one
        small fits room inside
        (ap (cells _ offset) sizes
          ∙ cells-write_both s offset (head_bytes len crc prefix) rest ok
          ∙ ap (λ k. head_bytes len k prefix ++ rest) c
          ∙ (unfold head_bytes in refl))
    where
      sizes : 8 + len ≡ length (head_bytes len crc prefix) + length rest
      sizes = unfold head_bytes in omega arith

  -- A record that was written in full is read back: the prefix, and of the payload as much as `max`
  -- leaves room for.
  pub load_rec-save_rec :
      (s : State) (offset max region : ℕ) (prefix bytes : List ℕ)
      → length prefix ≤ max
      → 1 ≤ max
      → max < 65536
      → 8 + max ≤ region
      → offset + (8 + max) ≤ size
      → 1 ≤ length prefix + length bytes
      → (save_rec fl s offset max prefix bytes).1 ≡ true
      → load_rec fl (save_rec fl s offset max prefix bytes).0 offset max region
        ≡ some (prefix ++ take (min (length prefix + length bytes) max - length prefix) bytes)
  unfolding save_rec
  load_rec-save_rec s offset max region prefix bytes p one small room inside some_bytes ok =
      let len = min (length prefix + length bytes) max in
      load_rec-write_both s offset max region len _ prefix (take (len - length prefix) bytes)
        (omega (arith, length-take (len - length prefix) bytes))
        (sym (crc16_from-append 0xFFFF prefix (take (len - length prefix) bytes))) (omega arith)
        (omega arith) (omega arith) (omega arith) (omega arith) ok
