-- ===== src/IsoDep/Activation.antt =====
-- The parameters that `activate` takes from the ATS of a card.
use paper_name_plate.Base.{
  ℕ, ◌≤◌, ◌≡◌, min, arith, List, ◌∷◌, bit_and, get_or, leb, ◌&&◌, ◌-◌, true, false, refl, [], take,
  length,
}
use paper_name_plate.Base.Bits.{holds_to, holds_to-at}
use paper_name_plate.Base.Results.{Result, ok, err}
use paper_name_plate.IsoDep.{Link, IsoDep, Ats, fsci_table, parse_ats, activated, activate}

-- A waiting time and a frame size that `exchange` can work with.
pub record Usable (a : Ats) : Type 0 where
  pub waits : 5 ≤ a.fwt_ms
  pub bounded : a.fwt_ms ≤ 3000
  pub frame : 16 ≤ a.fsc
  pub frame_fits : a.fsc ≤ 256

fsci_table_check :
    holds_to 9 (λ k. leb 16 (get_or fsci_table k 0) && leb (get_or fsci_table k 0) 256) ≡ true
unfolding holds_to
fsci_table_check = refl

fsci_table_bounds : (k : ℕ) → k ≤ 8 → (16 ≤ get_or fsci_table k 0) × (get_or fsci_table k 0 ≤ 256)
fsci_table_bounds k h =
    let e =
      holds_to-at 9 (λ k. leb 16 (get_or fsci_table k 0) && leb (get_or fsci_table k 0) 256) k
        fsci_table_check (omega arith) in
    ground arith

parse_ats-Usable : (bytes : List ℕ) → Usable (parse_ats bytes)
unfolding parse_ats
parse_ats-Usable bytes =
    ground (arith, fsci_table_bounds (min (bit_and (get_or bytes 1 0) 0x0F) 8) (omega arith))

activated-Usable :
    (l : Link) (r : l.State × Result l.NfcError (List ℕ)) (dep : IsoDep)
    → (activated l r).1 ≡ ok dep
    → Usable dep.ats × (dep.block_num ≡ false)
unfolding activated
activated-Usable l (s, err e) dep h = absurd (ground arith)
activated-Usable l (s, ok rx) dep h = ground (arith, parse_ats-Usable (take (length rx - 2) rx))

-- Whatever a card answers to RATS, an activation that succeeds has a waiting time of 5 to 3000 ms and
-- a frame size of 16 to 256 bytes, and starts with block number 0.
pub activate-Usable :
    (l : Link) (s : l.State) (dep : IsoDep)
    → (activate l s).1 ≡ ok dep
    → Usable dep.ats × (dep.block_num ≡ false)
unfolding activate
activate-Usable l s dep e = activated-Usable l (l.transceive s (0xE0 ∷ 0x80 ∷ []) 32 70) dep e
