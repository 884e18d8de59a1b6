-- ===== src/Hci/Stream.antt =====
-- `read` in app/ble.rs: the bytes of a packet, in order.
use paper_name_plate.Base.{
  ℕ, zero, suc, ◌+◌, ◌-◌, min, ◌<◌, ◌≡◌, ap, ap₂, ◌∙◌, sym, arith, List, [], ◌∷◌, ◌++◌,
}
use paper_name_plate.Base.{◌==◌, false, length, take, drop, length-drop, append-nil}
use paper_name_plate.Base.Results.{Result, ok, err}
use paper_name_plate.Hci.{Radio, BufferedHci, HciEnd, read}

abbrev pub sum : List ℕ → ℕ
sum [] = 0
sum (n ∷ ns) = n + sum ns

drop-drop : (a b : ℕ) (xs : List ℕ) → drop b (drop a xs) ≡ drop (a + b) xs
drop-drop zero b xs = let e : b ≡ zero + b = omega arith in ap (λ n. drop n xs) e
drop-drop (suc a) zero [] = let e : suc a ≡ suc a + zero = omega arith in ap (λ n. drop n []) e
drop-drop (suc a) (suc b) [] =
    let e : suc (a + suc b) ≡ suc a + suc b = omega arith in ap (λ n. drop n []) e
drop-drop (suc a) b (x ∷ xs) =
    let e : suc (a + b) ≡ suc a + b = omega arith in drop-drop a b xs ∙ ap (λ n. drop n (x ∷ xs)) e

take-add : (a b : ℕ) (xs : List ℕ) → take a xs ++ take b (drop a xs) ≡ take (a + b) xs
take-add zero b xs = let e : b ≡ zero + b = omega arith in ap (λ n. take n xs) e
take-add (suc a) zero [] = let e : suc a ≡ suc a + zero = omega arith in ap (λ n. take n []) e
take-add (suc a) (suc b) [] =
    let e : suc (a + suc b) ≡ suc a + suc b = omega arith in ap (λ n. take n []) e
take-add (suc a) b (x ∷ xs) =
    let e : suc (a + b) ≡ suc a + b = omega arith in
    ap (λ q. x ∷ q) (take-add a b xs) ∙ ap (λ n. take n (x ∷ xs)) e

take-min : (n : ℕ) (xs : List ℕ) → take (min n (length xs)) xs ≡ take n xs
take-min zero xs = let e : min 0 (length xs) ≡ 0 = omega arith in ap (λ n. take n xs) e
take-min (suc n) [] = let e : min (suc n) 0 ≡ 0 = omega arith in ap (λ k. take k []) e
take-min (suc n) (x ∷ xs) =
    let e : min (suc n) (suc (length xs)) ≡ suc (min n (length xs)) = omega arith in
    ap (λ k. take k (x ∷ xs)) e ∙ ap (λ q. x ∷ q) (take-min n xs)

module _ (c : Radio) where
  -- The bytes that `read` has not given yet.
  abbrev pub pending : BufferedHci c → List ℕ
  pending h = drop h.start h.bytes

  abbrev Bytes : Type 0
  Bytes = BufferedHci c × Result (HciEnd c.HciError) (List ℕ)

  abbrev prepend : List ℕ → Bytes → Bytes
  prepend bs (h, ok cs) = (h, ok (bs ++ cs))
  prepend bs (h, err e) = (h, err e)

  abbrev and_then : Bytes → (BufferedHci c → Bytes) → Bytes
  and_then (h, ok bs) f = prepend bs (f h)
  and_then (h, err e) f = (h, err e)

  -- Reads one after the other, each with its room, up to the first error.
  abbrev pub reads : ℕ → List ℕ → BufferedHci c → Bytes
  reads rounds [] h = (h, ok [])
  reads rounds (room ∷ rooms) h = and_then (read c rounds room h) (λ g. reads rounds rooms g)

  -- One read while bytes are pending, whatever its room.
  read-pending :
      (rounds room : ℕ) (h : BufferedHci c)
      → 0 < length (pending h)
      → read c rounds room h
        ≡ (record h { start = h.start + min room (length (pending h)) }, ok (take room (pending h)))
  unfolding read
  read-pending rounds room h pos =
      let len = length-drop h.start h.bytes in
      let more : (h.start == length h.bytes) ≡ false = ground (arith, len) in
      let n : length h.bytes - h.start ≡ length (pending h) = omega arith in
      rw (more, n)
        (ap (λ q. (record h { start = h.start + min room (length (pending h)) }, ok q))
          (take-min room (pending h)))

  -- Reads of any rooms, of which all but the last leave bytes of the packet: together they give its
  -- bytes in order, none lost and none twice, up to its end at most, and never ask the radio.
  pub reads-pending :
      (rounds : ℕ) (rooms : List ℕ) (last : ℕ) (h : BufferedHci c)
      → sum rooms < length (pending h)
      → reads rounds (rooms ++ (last ∷ [])) h ≡ (
        record h { start = h.start + min (sum rooms + last) (length (pending h)) },
        ok (take (sum rooms + last) (pending h)),
      )
  reads-pending rounds [] last h l =
      let e : last ≡ 0 + last = omega arith in
      ap (λ r. and_then r (λ g. (g, ok []))) (read-pending rounds last h l)
      ∙ ap (λ q. (record h { start = h.start + min last (length (pending h)) }, ok q))
          (append-nil (take last (pending h)))
      ∙ ap
          (λ n.
            (record h { start = h.start + min n (length (pending h)) }, ok (take n (pending h))))
          e
  reads-pending rounds (room ∷ rooms) last h l =
      let next = record h { start = h.start + room } in
      let d = drop-drop h.start room h.bytes in
      let len = length-drop room (pending h) in
      let size : length (pending next) ≡ length (pending h) - room =
        omega (arith, len, ap length d) in
      let small : min room (length (pending h)) ≡ room = omega arith in
      let same : h.start + room + min (sum rooms + last) (length (pending next))
          ≡ h.start + min (room + sum rooms + last) (length (pending h)) =
        omega (arith, size) in
      let total : room + (sum rooms + last) ≡ room + sum rooms + last = omega arith in
      let rest = reads-pending rounds rooms last next (omega (arith, size)) in
      ap (λ r. and_then r (λ g. reads rounds (rooms ++ (last ∷ [])) g))
        (read-pending rounds room h (omega arith)
          ∙ ap (λ n. (record h { start = h.start + n }, ok (take room (pending h)))) small)
      ∙ ap (prepend (take room (pending h))) rest
      ∙ ap₂ (λ s bs. (record h { start = s }, ok bs)) same
          (ap (λ q. take room (pending h) ++ take (sum rooms + last) q) (sym d)
            ∙ take-add room (sum rooms + last) (pending h)
            ∙ ap (λ n. take n (pending h)) total)
