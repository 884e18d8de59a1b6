-- ===== src/Tag/States/Written.antt =====
-- What becomes of a reader's writes: `update` reports them when the field is gone.
use paper_name_plate.Base.{ℕ, ◌≤◌, ◌<◌, ◌≡◌, ◌⊎◌, inl, inr, ap, ◌∙◌, arith, List, Bool, true, false}
use paper_name_plate.Base.{Bool-cases, get_or}
use paper_name_plate.Base.Results.{Result, ok, err}
use paper_name_plate.Base.Io.{continue, ◌>>=◌, gets, update}
use paper_name_plate.Bus.{Bus}
use paper_name_plate.Tag.Commands.{Tag, answer, handle_command}
use paper_name_plate.Tag.Commands.Effects.{answer-outside, answer-dirty}
use paper_name_plate.Tag.States.{State, field_off, Emulator, StopError, enter, is_off}
use paper_name_plate.Tag.States.Update.{serve_command, update_from, report, update_tag}
use paper_name_plate.Tag.States.Moves.{update_from-Stays}

-- The user area, bytes 16 to 903, is the same in both memories.
abbrev pub SameUser : List ℕ → List ℕ → Type 0
SameUser m0 m = (j : ℕ) → 16 ≤ j → j < 904 → get_or m j 0 ≡ get_or m0 j 0

-- The tag is marked as written, or its user area is as it was in the memory `m0`.
abbrev pub Tracks : List ℕ → Tag → Type 0
Tracks m0 t = (t.dirty ≡ true) ⊎ SameUser m0 t.memory

answer-Tracks :
    (m0 : List ℕ) (t : Tag) (op : ℕ) (args : List ℕ) → Tracks m0 t → Tracks m0 (answer t op args).0
answer-Tracks m0 t op args h = elim (Bool-cases (answer t op args).0.dirty) [
  | inl e ↦ inl e
  | inr e ↦ elim h [
    | inl d ↦ inl (ground (arith, answer-dirty t op args e, d))
    | inr same ↦ inr (λ j l u. answer-outside t op args j (inr (e, l, u)) ∙ same j l u)
  ]
]

-- The event at the end of a step.
report-Tracks :
    (b : Bus) (before : State) (m0 : List ℕ) (e : Emulator b)
    → Tracks m0 e.tag
    → ((report b before e).1 ≡ ok (field_off true)) ⊎ Tracks m0 (report b before e).0.tag
unfolding report
report-Tracks b before m0 e h = elim (Bool-cases (is_off before)) [
  | inl x ↦ rw x (inr h)
  | inr x ↦ elim (Bool-cases (is_off e.state)) [
    | inl y ↦
        rw (x, y)
          (elim h [ inl d ↦ inl (ap (λ w. ok (field_off w)) d) | inr same ↦ inr (inr same) ])
    | inr y ↦ rw (x, y) (inr h)
  ]
]

-- The event at the end of a field leaves the tag unmarked, in `off`.
report-clean :
    (b : Bus) (before : State) (w : Bool) (e : Emulator b)
    → (report b before e).1 ≡ ok (field_off w)
    → (report b before e).0.tag.dirty ≡ false
unfolding report
report-clean b before w e h = ground arith

-- The body of a step, and its report.
then_report :
    (b : Bus) (m0 : List ℕ) (before : State)
    (r : Emulator b × Result (StopError b.BusError) (Unit {0}))
    → Tracks m0 r.0.tag
    → ((continue r (λ u. report b before)).1 ≡ ok (field_off true))
      ⊎ Tracks m0 (continue r (λ u. report b before)).0.tag
then_report b m0 before (e, ok u) h = report-Tracks b before m0 e h
then_report b m0 before (e, err x) h = inr h

-- No write of a reader is lost: if the tag is marked as written or its user area is as it was in `m0`,
-- then a step reports the writes, or the same holds behind it, an error's step included.
pub update_tag-Tracks :
    (b : Bus) (debug : Bool) (n : ℕ) (e : Emulator b) (m0 : List ℕ)
    → Tracks m0 e.tag
    → ((update_tag b debug n e).1 ≡ ok (field_off true)) ⊎ Tracks m0 (update_tag b debug n e).0.tag
unfolding update_tag ◌>>=◌ gets enter update serve_command handle_command
update_tag-Tracks b debug n e m0 h =
    let body =
      update_from-Stays b (λ s t. Tracks m0 t) e.state (λ s m. record { keep = λ d p. p })
        (λ op args. record { keep = λ d p. answer-Tracks m0 d.tag op args p }) debug n in
    then_report b m0 e.state (update_from b e.state debug n e) (body.keep e h)

after_clean :
    (b : Bus) (before : State) (w : Bool)
    (r : Emulator b × Result (StopError b.BusError) (Unit {0}))
    → (continue r (λ u. report b before)).1 ≡ ok (field_off w)
    → (continue r (λ u. report b before)).0.tag.dirty ≡ false
after_clean b before w (e, ok u) h = report-clean b before w e h
after_clean b before w (e, err x) h = absurd (ground arith)

-- A field at whose end no writes are reported has left the user area as it was.
pub field_off-SameUser :
    (b : Bus) (debug : Bool) (n : ℕ) (e : Emulator b) (m0 : List ℕ)
    → Tracks m0 e.tag
    → (update_tag b debug n e).1 ≡ ok (field_off false)
    → SameUser m0 (update_tag b debug n e).0.tag.memory
unfolding update_tag ◌>>=◌ gets
field_off-SameUser b debug n e m0 h k = elim (update_tag-Tracks b debug n e m0 h) [
  | inl w ↦ absurd (ground arith)
  | inr (inl d) ↦
      absurd (ground (arith, after_clean b e.state false (update_from b e.state debug n e) k))
  | inr (inr same) ↦ same
]
