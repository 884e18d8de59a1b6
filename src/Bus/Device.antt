-- ===== src/Bus/Device.antt =====
-- A chip whose registers hold what was written to them, and what an update of one does.
use paper_name_plate.Base.{ℕ, ◌-◌, min, max, ◌<◌, ◌≡◌, ◌≢◌, sym, ap, ap₂, ◌∙◌, arith, List, [], ◌∷◌}
use paper_name_plate.Base.{bit_and, get_or, ◌==◌, if◌then◌else◌, Bool-cases, inl, inr, ==_iff}
use paper_name_plate.Base.Digits.{bit_at, bit_at-and, bit_at-or, bit_at-not, bit_and-le}
use paper_name_plate.Base.Bits.{bit_or-lt}
use paper_name_plate.Base.Io.{pure, continue-ok, continue-state, ◌>>=◌}
use paper_name_plate.Base.Results.{ok}
use paper_name_plate.Bus.{Bus, not_u8}
use paper_name_plate.Bus.Registers.{read, read_u8, write_u8, merged, update_u8}

-- The chip at `addr` answers with the contents of its registers, which a read leaves as they are, and
-- a write that succeeds sets one register and no other.
pub record RegisterFile (b : Bus) (addr : ℕ) : Type 0 where
  pub reg : b.State → ℕ → ℕ
  pub reg_byte : (s : b.State) (r : ℕ) → reg s r < 256
  pub read_value :
      (s : b.State) (r : ℕ) (bs : List ℕ)
      → (b.write_read addr (r ∷ []) 1 s).1 ≡ ok bs
      → bs ≡ reg s r ∷ []
  pub read_keeps : (s : b.State) (r q : ℕ) → reg (b.write_read addr (r ∷ []) 1 s).0 q ≡ reg s q
  pub write_sets :
      (s : b.State) (r v : ℕ)
      → v < 256
      → (b.write addr (r ∷ v ∷ []) s).1 ≡ ok tt
      → reg (b.write addr (r ∷ v ∷ []) s).0 r ≡ v
  pub write_keeps :
      (s : b.State) (r v q : ℕ)
      → (b.write addr (r ∷ v ∷ []) s).1 ≡ ok tt
      → q ≢ r
      → reg (b.write addr (r ∷ v ∷ []) s).0 q ≡ reg s q

-- A digit of a merged register: the new value where the mask is set, else the old one.
pub bit_at-merged :
    (b : Bus) (cur mask value i : ℕ)
    → mask < 256
    → i < 8
    → bit_at i (merged b cur mask value)
      ≡ max (min (bit_at i cur) (1 - bit_at i mask)) (min (bit_at i value) (bit_at i mask))
bit_at-merged b cur mask value i h l =
    bit_at-or i (bit_and cur (not_u8 mask)) (bit_and value mask)
    ∙ ap₂ max (bit_at-and i cur (not_u8 mask) ∙ ap (min (bit_at i cur)) (bit_at-not 8 i mask h l))
        (bit_at-and i value mask)

module _ (b : Bus) (addr : ℕ) (chip : RegisterFile b addr) where
  open chip use {reg, reg_byte, read_value, read_keeps, write_sets, write_keeps}

  read_u8-value : (s : b.State) (r v : ℕ) → (read_u8 b addr r s).1 ≡ ok v → v ≡ reg s r
  unfolding read_u8 read ◌>>=◌ pure
  read_u8-value s r v e =
      let (bs, got, _, res) =
        continue-ok (b.write_read addr (r ∷ []) 1 s) (λ bs. pure (get_or bs 0 0)) e in
      ground (arith, read_value s r bs got)

  read_u8-keeps : (s : b.State) (r q : ℕ) → reg (read_u8 b addr r s).0 q ≡ reg s q
  unfolding read_u8 read ◌>>=◌ pure
  read_u8-keeps s r q =
      continue-state (λ t. reg t q ≡ reg s q) (b.write_read addr (r ∷ []) 1 s)
        (λ bs. pure (get_or bs 0 0)) (read_keeps s r q) (λ bs got. read_keeps s r q)

  merged-lt : (cur mask value : ℕ) → cur < 256 → value < 256 → merged b cur mask value < 256
  merged-lt cur mask value h k =
      bit_or-lt 8 _ _ (omega (arith, bit_and-le cur (not_u8 mask)))
        (omega (arith, bit_and-le value mask))

  -- The write of an update, which is left out where it changes nothing.
  store :
      (t : b.State) (r cur n q : ℕ)
      → n < 256
      → cur ≡ reg t r
      → ((if n == cur then pure tt else write_u8 b addr r n) t).1 ≡ ok tt
      → reg ((if n == cur then pure tt else write_u8 b addr r n) t).0 q
        ≡ (if r == q then n else reg t q)
  unfolding write_u8 pure
  store t r cur n q w c h = elim (Bool-cases (n == cur)) [
    | inl e ↦ rw e (ground (arith, (==_iff n cur).0 e))
    | inr e ↦ rw e (ground (arith, write_sets t r n w (rw e at h), write_keeps t r n q (rw e at h)))
  ]

  -- An update that succeeds leaves the merged value in its register, and the other registers as
  -- they were.
  pub update_u8_lem :
      (s : b.State) (r mask value q : ℕ)
      → value < 256
      → (update_u8 b addr r mask value s).1 ≡ ok tt
      → reg (update_u8 b addr r mask value s).0 q
        ≡ (if r == q then merged b (reg s r) mask value else reg s q)
  unfolding update_u8 ◌>>=◌ pure
  update_u8_lem s r mask value q w h =
      let rest = λ (cur : ℕ).
        if merged b cur mask value == cur
        then pure tt
        else write_u8 b addr r (merged b cur mask value) in
      let (cur, got, whole, done) = continue-ok (read_u8 b addr r s) rest h in
      let c : cur ≡ reg s r = read_u8-value s r cur got in
      let n = merged b cur mask value in
      let t = (read_u8 b addr r s).0 in
      let small : n < 256 = merged-lt cur mask value (omega (arith, c, reg_byte s r)) w in
      ap (λ p. reg p.0 q) whole
      ∙ store t r cur n q small (c ∙ sym (read_u8-keeps s r r)) done
      ∙ (λ i. if r == q then merged b (c i) mask value else read_u8-keeps s r q i)
