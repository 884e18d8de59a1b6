-- ===== src/Touch.antt =====
-- ft6336.rs: the touch controller, on the bus.
use paper_name_plate.Base.{ℕ, zero, suc, ◌+◌, ◌*◌, ◌/◌, ◌^◌, List, [], ◌∷◌, ◌||◌}
use paper_name_plate.Base.{bit_and, bit_or, ltb, ◌==◌, if◌then◌else◌, get_or}
use paper_name_plate.Base.Results.{ok}
use paper_name_plate.Base.Io.{pure, continue, ◌>>=◌, ◌>>◌}
use paper_name_plate.Bus.{Bus}
use paper_name_plate.Bus.Registers.{BusIo}

abbrev pub ft6336_addr : ℕ
ft6336_addr = 0x38

abbrev pub td_status : ℕ
td_status = 0x02

abbrev pub g_mode : ℕ
g_mode = 0xA4

abbrev pub chip_id_reg : ℕ
chip_id_reg = 0xA3

abbrev pub vendor_id_reg : ℕ
vendor_id_reg = 0xA8

pub record TouchPoint : Type 0 where
  pub x : ℕ
  pub y : ℕ
  pub event : ℕ
  pub id : ℕ

-- Point `i` of a report.
unfoldable pub point_at : List ℕ → ℕ → TouchPoint
point_at buf i =
    let o = 1 + i * 6 in
    record {
      event = get_or buf o 0 / 2 ^ 6;
      x = bit_or (bit_and (get_or buf o 0) 0x0F * 2 ^ 8) (get_or buf (o + 1) 0);
      id = get_or buf (o + 2) 0 / 2 ^ 4;
      y = bit_or (bit_and (get_or buf (o + 2) 0) 0x0F * 2 ^ 8) (get_or buf (o + 3) 0);
    }

-- The points that a report of 13 bytes gives: at most two, and none if it counts more.
unfoldable pub points_of : List ℕ → List TouchPoint
points_of buf =
    let n = bit_and (get_or buf 0 0) 0x0F in
    if n == 0 || ltb 2 n
    then []
    else if n == 1
    then point_at buf 0 ∷ []
    else point_at buf 0 ∷ point_at buf 1 ∷ []

module _ (b : Bus) where
  open b use {State, BusError, wait, write, write_read}

  -- `read_reg`
  unfoldable pub read_touch_reg : ℕ → BusIo b ℕ
  read_touch_reg r = do bs ← write_read ft6336_addr (r ∷ []) 1; pure (get_or bs 0 0)

  unfoldable pub chip_id : BusIo b ℕ
  chip_id = read_touch_reg chip_id_reg

  unfoldable pub vendor_id : BusIo b ℕ
  vendor_id = read_touch_reg vendor_id_reg

  -- The probes of `init`: ten at most, until the identity is not zero.
  unfoldable pub probe_chip : ℕ → ℕ → BusIo b ℕ
  probe_chip zero id s = (s, ok id)
  probe_chip (suc n) id s =
      let again = λ (v : ℕ) (t : State). probe_chip n v t in
      continue (chip_id s) (λ v t. if v == 0 then again v (wait 50000 t) else (t, ok v))

  -- `init`
  unfoldable pub init_touch : BusIo b ℕ
  unfolding probe_chip
  init_touch = do id ← probe_chip 10 0; write ft6336_addr (g_mode ∷ 0x00 ∷ []); pure id

  -- `read`: the points that are touched.
  unfoldable pub read_points : BusIo b (List TouchPoint)
  read_points = do buf ← write_read ft6336_addr (td_status ∷ []) 13; pure (points_of buf)
