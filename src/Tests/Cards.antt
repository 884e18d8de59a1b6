-- ===== src/Tests/Cards.antt =====
-- Cards that answer from a script.
use paper_name_plate.Base.{
  ℕ, ◌+◌, ◌*◌, ◌/◌, ◌%◌, ◌<◌, ◌≡◌, ◌≢◌, refl, arith, ap, ◌∙◌, List, [], ◌∷◌, false, ◌==◌,
  if◌then◌else◌, get_or, take, drop,
}
use paper_name_plate.Base.Results.{Result, ok, err}
use paper_name_plate.IsoDep.{Link, IsoDep, exchange}
use paper_name_plate.IsoDep.{activate}
use paper_name_plate.IsoDep.Activation.{Usable, activate-Usable}
use paper_name_plate.IsoDep.Talk.{wait, part, last, exchange-Talk}
use paper_name_plate.Reader.Type4.{Apdus, read_type4, out_of_fuel, read_binary}
use paper_name_plate.Reader.Type4.Session.{Serves, success, file_of, read_type4-Serves}
use paper_name_plate.Reader.Type4.Ends.{read_type4-ends}

abbrev reply : List (List ℕ) → List (List ℕ) × Result (Unit {0}) (List ℕ)
reply [] = ([], err tt)
reply (r ∷ rs) = (rs, ok r)

abbrev script : Link
script = record {
  State = List (List ℕ);
  NfcError = Unit {0};
  transceive = λ s tx room timeout. reply s;
}

-- The card asks for more time, then sends two parts.
abbrev replies : List (List ℕ)
replies = (0xF2 ∷ 3 ∷ 0 ∷ 0 ∷ []) ∷ (0x12 ∷ 7 ∷ 0 ∷ 0 ∷ []) ∷ (0x03 ∷ 8 ∷ 9 ∷ 0 ∷ 0 ∷ []) ∷ []

abbrev dep : IsoDep
dep = record { block_num = false; ats = record { raw = 1 ∷ []; fwt_ms = 40; fsc = 32 } }

exchange-Talk_example :
    exchange script dep replies (0 ∷ [])
    ≡ ([], record dep { block_num = false }, ok (7 ∷ 8 ∷ 9 ∷ []))
exchange-Talk_example =
    exchange-Talk script dep replies [] (0 ∷ []) (7 ∷ 8 ∷ 9 ∷ []) 3 false (omega arith)
      (wait 3 [] (0 ∷ 0 ∷ []) refl refl
        (part (7 ∷ []) (0 ∷ 0 ∷ []) refl refl (last (0 ∷ 0 ∷ []) refl refl)))
      (omega arith)

-- A tag with a message of 3 bytes; its state counts the commands up to the selection of the file.
abbrev message : List ℕ
message = 0xD0 ∷ 0 ∷ 0 ∷ []

abbrev container : List ℕ
container = 0 ∷ 15 ∷ 0x20 ∷ 0 ∷ 16 ∷ 0 ∷ 16 ∷ 4 ∷ 6 ∷ 0xE1 ∷ 4 ∷ 0 ∷ 100 ∷ 0 ∷ 0 ∷ []

abbrev slice : List ℕ → List ℕ
slice apdu =
    success
      (take (get_or apdu 4 0) (drop (get_or apdu 2 0 * 256 + get_or apdu 3 0) (file_of message)))

abbrev answer : ℕ → List ℕ → ℕ × Result (Unit {0}) (List ℕ)
answer s apdu =
    if s == 4
    then (4, ok (slice apdu))
    else (s + 1, ok (success (if s == 2 then container else [])))

abbrev tag : Apdus
tag = record { State = ℕ; DepError = Unit {0}; exchange = answer }

tag-reads :
    (off n : ℕ)
    → n < 256
    → off < 256
    → answer 4 (read_binary off n) ≡ (4, ok (success (take n (drop off (file_of message)))))
tag-reads off n h k =
    let e : off / 256 % 256 * 256 + off % 256 ≡ off = omega arith in
    let d : n % 256 ≡ n = omega arith in
    (λ i. (4, ok (success (take (d i) (drop (e i) (file_of message))))))

tag-Serves : Serves tag 0 message
tag-Serves = record {
  Ready = λ t. t ≡ 4;
  s1 = 1;
  s2 = 2;
  s3 = 3;
  s4 = 4;
  app = [];
  container = [];
  cc = container;
  file = [];
  app_selected = refl;
  cc_selected = refl;
  cc_read = refl;
  cc_size = refl;
  limit = omega arith;
  file_control = refl;
  file_selected = refl;
  ready = refl;
  bytes_read = λ t off n r one m w fits. (
    4,
    ap (λ s. answer s (read_binary off n)) r ∙ tag-reads off n (omega arith) (omega arith),
    refl,
  );
}

read_type4-Serves_example : (read_type4 tag 0).1 ≡ ok message
read_type4-Serves_example = read_type4-Serves tag 0 message tag-Serves (omega arith)

read_type4-ends_example : (read_type4 tag 0).1 ≢ err out_of_fuel
read_type4-ends_example = read_type4-ends tag 0

-- An ATS with a waiting time of 2^8 units and frames of 256 bytes, and its CRC.
abbrev ats_reply : List (List ℕ)
ats_reply = (0x04 ∷ 0x28 ∷ 0x80 ∷ 0x02 ∷ 0 ∷ 0 ∷ []) ∷ []

abbrev activated_dep : IsoDep
activated_dep = record {
  block_num = false;
  ats = record { raw = 0x04 ∷ 0x28 ∷ 0x80 ∷ 0x02 ∷ []; fwt_ms = 77; fsc = 256 };
}

activate-reply : (activate script ats_reply).1 ≡ ok activated_dep
unfolding activate
activate-reply = refl

activate-Usable_example : Usable activated_dep.ats × (activated_dep.block_num ≡ false)
activate-Usable_example = activate-Usable script ats_reply activated_dep activate-reply
