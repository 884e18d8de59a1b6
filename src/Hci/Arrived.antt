-- ===== src/Hci/Arrived.antt =====
-- The loop of `fill` in app/ble.rs, by the packets that it takes for fragments.
use paper_name_plate.Base.{
  ℕ, zero, suc, ◌+◌, ◌-◌, ◌%◌, ◌^◌, min, ◌≤◌, ◌<◌, ◌≡◌, ◌∙◌, ap, ap₂, refl, arith, subst,
}
use paper_name_plate.Base.{
  List, [], ◌∷◌, ◌++◌, append-nil, append_assoc, false, inl, inr, Bool-cases,
}
use paper_name_plate.Base.{
  if◌then◌else◌, length, length-append, take, drop, take_all, write_at, ltb,
}
use paper_name_plate.Base.Bytes.{u16_le_bytes}
use paper_name_plate.Base.Results.{Result, ok}
use paper_name_plate.Hci.{
  Radio, BufferedHci, Gather, HciEnd, is_continuation, is_whole, take_packet, gather, after_next,
}
use paper_name_plate.Hci.{close_packet, after_first, closed, want_of, fill}

-- The part of the message in a packet, and a packet that is none of it, as the code tells them apart.
abbrev pub part : List ℕ → List ℕ
part p = if is_continuation p then drop 5 p else []

abbrev pub other : List ℕ → List ℕ
other p = if is_continuation p then [] else p

abbrev pub parts : List (List ℕ) → List ℕ
parts [] = []
parts (p ∷ ps) = part p ++ parts ps

abbrev pub others : List (List ℕ) → List ℕ
others [] = []
others (p ∷ ps) = other p ++ others ps

module _ (c : Radio) where
  open c use {State, HciError, next, millis}

  -- What the radio gives, one call after the other, while `need` bytes of the message are missing:
  -- with the last one none is. It gives nothing only before the deadline.
  abbrev pub Arrives : (deadline : ℕ) → List (List ℕ) → State → ℕ → State → Type 0
  Arrives deadline [] s need t = (need ≡ 0) × (s ≡ t)
  Arrives deadline (p ∷ ps) s need t =
      (s1 : State) × (0 < need)
      × (next s 512 ≡ (s1, ok p))
      × (p ≡ [] → millis s1 ≤ deadline)
      × Arrives deadline ps s1 (need - length (part p)) t

  gather-done :
      (rounds deadline want : ℕ) (g : Gather c)
      → want + 5 ≤ length g.merged
      → gather c (suc rounds) deadline want g ≡ (g, ok tt)
  unfolding gather
  gather-done rounds deadline want g h = ground arith

  gather-next :
      (rounds deadline want : ℕ) (g : Gather c)
      → 5 ≤ length g.merged
      → length g.merged < want + 5
      → gather c (suc rounds) deadline want g
        ≡ after_next c deadline (λ h. gather c rounds deadline want h) g (next g.radio 512)
  unfolding gather
  gather-next rounds deadline want g l h = ground arith

  take_packet_lem :
      (p : List ℕ) (g : Gather c)
      → length g.merged + length (part p) ≤ 1024
      → length g.stray + length (other p) ≤ 512
      → take_packet c p g ≡ record g { merged = g.merged ++ part p; stray = g.stray ++ other p }
  unfolding take_packet
  take_packet_lem p g fits room = elim (Bool-cases (is_continuation p)) [
    | inl e ↦
        let f : length g.merged + length (drop 5 p) ≤ 1024 = rw e at fits in
        rw (e, append-nil g.stray)
          (ap (λ l. record g { merged = g.merged ++ l }) (take_all _ (drop 5 p) (omega arith)))
    | inr e ↦
        let f : length g.stray + length p ≤ 512 = rw e at room in
        rw (e, append-nil g.merged) (ground arith)
  ]

  after_next_lem :
      (deadline : ℕ) (again : Gather c → Gather c × Result (HciEnd HciError) (Unit {0}))
      (g : Gather c) (s : State) (p : List ℕ)
      → (p ≡ [] → millis s ≤ deadline)
      → length g.merged + length (part p) ≤ 1024
      → length g.stray + length (other p) ≤ 512
      → after_next c deadline again g (s, ok p)
        ≡ again (record { radio = s; merged = g.merged ++ part p; stray = g.stray ++ other p })
  after_next_lem deadline again g s [] h fits room =
      let calm : ltb deadline (millis s) ≡ false = ground (arith, h refl) in
      rw calm (unfold is_continuation in rw (append-nil g.merged, append-nil g.stray))
  after_next_lem deadline again g s (b ∷ p) h fits room =
      ap again (take_packet_lem (b ∷ p) (record g { radio = s }) fits room)

  -- The loop takes what arrives.
  pub gather-Arrives :
      (ps : List (List ℕ)) (rounds deadline want : ℕ) (s t : State) (merged stray : List ℕ)
      → Arrives deadline ps s (want + 5 - length merged) t
      → 5 ≤ length merged
      → length merged + length (parts ps) ≤ 1024
      → length stray + length (others ps) ≤ 512
      → length ps < rounds
      → gather c rounds deadline want (record { radio = s; merged = merged; stray = stray })
        ≡ (record { radio = t; merged = merged ++ parts ps; stray = stray ++ others ps }, ok tt)
  gather-Arrives [] zero deadline want s t merged stray a l fits room r = absurd (omega arith)
  gather-Arrives [] (suc rounds) deadline want s t merged stray a l fits room r =
      gather-done rounds deadline want _ (omega (arith, a.0))
      ∙ rw (append-nil merged, append-nil stray, a.1)
  gather-Arrives (p ∷ ps) zero deadline want s t merged stray a l fits room r = absurd (omega arith)
  gather-Arrives (p ∷ ps) (suc rounds) deadline want s t merged stray a l fits room r =
      let (s1, more, e, calm, rest) = a in
      let g : Gather c = record { radio = s; merged = merged; stray = stray } in
      let again = λ (h : Gather c). gather c rounds deadline want h in
      let lm = length-append merged (part p) in
      let ls = length-append stray (other p) in
      let lp = length-append (part p) (parts ps) in
      let lo = length-append (other p) (others ps) in
      let less : want + 5 - length merged - length (part p) ≡ want + 5 - length (merged ++ part p) =
        omega (arith, lm) in
      gather-next rounds deadline want g l (omega arith)
      ∙ ap (after_next c deadline again g) e
      ∙ after_next_lem deadline again g s1 p calm (omega (arith, lp)) (omega (arith, lo))
      ∙ gather-Arrives ps rounds deadline want s1 t (merged ++ part p) (stray ++ other p)
          (subst (λ n. Arrives deadline ps s1 n t) less rest) (omega (arith, lm))
          (omega (arith, lm, lp)) (omega (arith, ls, lo)) (omega arith)
      ∙ rw (append_assoc merged (part p) (parts ps), append_assoc stray (other p) (others ps))

  -- The packet that `fill` leaves: the first one with the length of the whole message in its header,
  -- its parts, and then the other packets, in the order in which they came.
  abbrev pub whole : List ℕ → List (List ℕ) → List ℕ
  whole p ps =
      take 3 p
      ++ (u16_le_bytes (length (drop 5 p) + length (parts ps))
          ++ (drop 5 p ++ (parts ps ++ others ps)))

  close_packet_lem :
      (p cs ss : List ℕ)
      → 5 ≤ length p
      → length p + length cs + length ss ≤ 1024
      → close_packet (p ++ cs) ss
        ≡ take 3 p ++ (u16_le_bytes (length (drop 5 p) + length cs) ++ (drop 5 p ++ (cs ++ ss)))
  unfolding close_packet
  close_packet_lem [] cs ss h k = absurd (omega arith)
  close_packet_lem (b0 ∷ []) cs ss h k = absurd (omega arith)
  close_packet_lem (b0 ∷ b1 ∷ []) cs ss h k = absurd (omega arith)
  close_packet_lem (b0 ∷ b1 ∷ b2 ∷ []) cs ss h k = absurd (omega arith)
  close_packet_lem (b0 ∷ b1 ∷ b2 ∷ b3 ∷ []) cs ss h k = absurd (omega arith)
  close_packet_lem (b0 ∷ b1 ∷ b2 ∷ b3 ∷ b4 ∷ r) cs ss h k =
      let l = length-append r cs in
      let m = b0 ∷ b1 ∷ b2 ∷ b3 ∷ b4 ∷ (r ++ cs) in
      let small : (length m - 5) % 2 ^ 16 ≡ length r + length cs = omega (arith, l) in
      let kept = take_all (min (length ss) (1024 - length m)) ss (omega (arith, l)) in
      ap₂ (λ n q. write_at m 3 (u16_le_bytes n) ++ q) small kept
      ∙ ap (λ q. b0 ∷ b1 ∷ b2 ∷ u16_le_bytes (length r + length cs) ++ q) (append_assoc r cs ss)

  whole-long : (p : List ℕ) → is_whole p ≡ false → 9 ≤ length p
  unfolding is_whole
  whole-long p h = ground arith

  pub fill-arrived :
      (rounds : ℕ) (h : BufferedHci c) (p : List ℕ) (ps : List (List ℕ)) (s t : State)
      → next h.inner 1024 ≡ (s, ok p)
      → is_whole p ≡ false
      → Arrives (millis s + 200) ps s (want_of p + 5 - length p) t
      → length p + length (parts ps) + length (others ps) ≤ 1024
      → length (others ps) ≤ 512
      → length ps < rounds
      → fill c rounds h ≡ (record { inner = t; bytes = whole p ps; start = 0 }, ok tt)
  unfolding fill
  fill-arrived rounds h p ps s t e first a fits room r =
      let long = whole-long p first in
      ap (after_first c rounds h) e
      ∙ rw first refl
      ∙ ap (closed c) (
          gather-Arrives ps rounds (millis s + 200) (want_of p) s t p [] a (omega (arith, long))
            (omega arith) (omega arith) r)
      ∙ ap (λ l. (record { inner = t; bytes = l; start = 0 }, ok tt))
          (close_packet_lem p (parts ps) (others ps) (omega (arith, long)) fits)
