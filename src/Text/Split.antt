-- ===== src/Text/Split.antt =====
-- `split('\n')` and `lines()` of `str`.
use paper_name_plate.Base.{ℕ, ◌≡◌, ◌≢◌, refl}
use paper_name_plate.Base.{List, [], ◌∷◌, ◌++◌, ◌==◌, All}
use paper_name_plate.Base.{if◌then◌else◌, arith, ne→==, Bool-cases, inl, inr}
use paper_name_plate.Text.Utf8.{Str}

abbrev pub newline : ℕ
newline = 0x0A

-- Puts a character before the first piece.
abbrev pub cons_first : ℕ → List Str → List Str
cons_first c [] = (c ∷ []) ∷ []
cons_first c (s ∷ ss) = (c ∷ s) ∷ ss

-- `s.split('\n')`: the pieces between the separators, one at least
unfoldable pub split : Str → List Str
split [] = [] ∷ []
split (c ∷ s) = if c == newline then [] ∷ split s else cons_first c (split s)

-- One `\r` before a line break belongs to it.
abbrev pub strip_cr : Str → Str
strip_cr [] = []
strip_cr (c ∷ []) = if c == 0x0D then [] else c ∷ []
strip_cr (c ∷ d ∷ s) = c ∷ strip_cr (d ∷ s)

-- A text that ends in a line break has no line behind it.
abbrev pub last_line : Str → List Str
last_line [] = []
last_line (c ∷ s) = (c ∷ s) ∷ []

abbrev pub to_lines : List Str → List Str
to_lines [] = []
to_lines (s ∷ []) = last_line s
to_lines (s ∷ t ∷ ss) = strip_cr s ∷ to_lines (t ∷ ss)

-- `s.lines()`
unfoldable pub lines : Str → List Str
unfolding split
lines s = to_lines (split s)

-- No character of the text is `c`.
abbrev pub Without : ℕ → Str → Type 0
Without c s = All (λ d. d ≢ c) s

pub split_line : (s : Str) → Without newline s → split s ≡ s ∷ []
unfolding split
split_line [] h = refl
split_line (c ∷ s) h = rw (ne→== c newline h.0, split_line s h.1)

pub split_line-append : (s t : Str) → Without newline s → split (s ++ (newline ∷ t)) ≡ s ∷ split t
unfolding split
split_line-append [] t h = refl
split_line-append (c ∷ s) t h = rw (ne→== c newline h.0, split_line-append s t h.1)

-- The last character is no `\r`.
abbrev pub NoCrEnd : Str → Type 0
NoCrEnd s = strip_cr s ≡ s

cons_first-Without :
    (c : ℕ) (ss : List Str)
    → c ≢ newline
    → All (Without newline) ss
    → All (Without newline) (cons_first c ss)
cons_first-Without c [] h k = ((h, tt), tt)
cons_first-Without c (s ∷ ss) h k = ((h, k.0), k.1)

-- The pieces of a split hold no separator.
pub split-Without : (s : Str) → All (Without newline) (split s)
unfolding split
split-Without [] = (tt, tt)
split-Without (c ∷ s) = elim (Bool-cases (c == newline)) [
  | inl e ↦ rw e (tt, split-Without s)
  | inr e ↦ rw e (cons_first-Without c (split s) (λ p. absurd (ground arith)) (split-Without s))
]
