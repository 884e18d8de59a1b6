-- ===== src/Text/Trim.antt =====
-- `trim`, `trim_end_matches`, `trim_start_matches` and `replace` of `str`.
use paper_name_plate.Base.{ℕ, zero, suc, ◌+◌, ◌≤◌, ◌≡◌, refl}
use paper_name_plate.Base.{[], ◌∷◌, ◌++◌, Bool, false, ◌&&◌, ◌||◌, leb, ◌==◌}
use paper_name_plate.Base.{
  Option, none, some, if◌then◌else◌, length, arith, Option-cases, Bool-cases, inl, inr,
}
use paper_name_plate.Text.Utf8.{Str}

-- `char::is_whitespace`: the White_Space property
unfoldable pub is_whitespace : ℕ → Bool
is_whitespace c =
    (leb 9 c && leb c 13)
    || (c == 0x20
        || (c == 0x85
            || (c == 0xA0
                || (c == 0x1680
                    || (leb 0x2000 c && leb c 0x200A
                        || (c == 0x2028
                            || (c == 0x2029 || (c == 0x202F || (c == 0x205F || c == 0x3000)))))))))

-- `trim_start_matches(p)` for a test `p` on one character
abbrev pub trim_start_while : (ℕ → Bool) → Str → Str
trim_start_while p [] = []
trim_start_while p (c ∷ s) = let rest = trim_start_while p s in if p c then rest else c ∷ s

-- Puts a character before a trimmed end.
abbrev pub before_trimmed : Bool → ℕ → Str → Str
before_trimmed drop c [] = if drop then [] else c ∷ []
before_trimmed drop c (d ∷ s) = c ∷ d ∷ s

-- `trim_end_matches(p)`
abbrev pub trim_end_while : (ℕ → Bool) → Str → Str
trim_end_while p [] = []
trim_end_while p (c ∷ s) = before_trimmed (p c) c (trim_end_while p s)

-- `s.trim()`
unfoldable pub trim : Str → Str
trim s = trim_end_while is_whitespace (trim_start_while is_whitespace s)

-- `s.strip_prefix(p)`
abbrev pub strip_prefix : Str → Str → Option Str
strip_prefix [] s = some s
strip_prefix (p ∷ ps) [] = none
strip_prefix (p ∷ ps) (c ∷ s) = let rest = strip_prefix ps s in if p == c then rest else none

trim_rounds : Str → ℕ → Str → Str
trim_rounds p zero s = s
trim_rounds p (suc fuel) s = elim (strip_prefix p s) [ none ↦ s | some r ↦ trim_rounds p fuel r ]

-- `s.trim_start_matches(p)` for a text `p`: every leading copy of it goes. Each round takes a
-- character at least, so that the length is fuel enough.
unfoldable pub trim_start_matches : Str → Str → Str
unfolding trim_rounds
trim_start_matches p s = trim_rounds p (length s) s

-- `s.replace(a, b)` for single characters
abbrev pub replace_char : ℕ → ℕ → Str → Str
replace_char a b [] = []
replace_char a b (c ∷ s) = (if c == a then b else c) ∷ replace_char a b s

strip_prefix-length : (ps s r : Str) → strip_prefix ps s ≡ some r → length r + length ps ≡ length s
strip_prefix-length [] s r h = ground arith
strip_prefix-length (p ∷ ps) [] r h = cc
strip_prefix-length (p ∷ ps) (c ∷ s) r h = ground (arith, strip_prefix-length ps s r)

trim_rounds-none :
    (p : ℕ) (ps : Str) (fuel : ℕ) (s : Str)
    → length s ≤ fuel
    → strip_prefix (p ∷ ps) (trim_rounds (p ∷ ps) fuel s) ≡ none
unfolding trim_rounds
trim_rounds-none p ps zero [] h = refl
trim_rounds-none p ps zero (c ∷ s) h = absurd (omega arith)
trim_rounds-none p ps (suc fuel) s h = elim (Option-cases (strip_prefix (p ∷ ps) s)) [
  | inl e ↦ rw (e, trim_rounds) e
  | inr (r, e) ↦
      rw (e, trim_rounds)
        (trim_rounds-none p ps fuel r (omega (arith, strip_prefix-length (p ∷ ps) s r e)))
]

-- No copy of the prefix is left.
pub strip_prefix-trim_start_matches :
    (p : ℕ) (ps s : Str) → strip_prefix (p ∷ ps) (trim_start_matches (p ∷ ps) s) ≡ none
unfolding trim_start_matches
strip_prefix-trim_start_matches p ps s = trim_rounds-none p ps (length s) s (omega arith)

trim_rounds-fixed :
    (p : Str) (fuel : ℕ) (s : Str) → strip_prefix p s ≡ none → trim_rounds p fuel s ≡ s
unfolding trim_rounds
trim_rounds-fixed p zero s h = refl
trim_rounds-fixed p (suc fuel) s h = rw (h, trim_rounds)

-- A text that does not begin with the prefix stays.
pub trim_start_matches-none : (p s : Str) → strip_prefix p s ≡ none → trim_start_matches p s ≡ s
unfolding trim_start_matches
trim_start_matches-none p s h = trim_rounds-fixed p (length s) s h

strip_prefix-append : (p s : Str) → strip_prefix p (p ++ s) ≡ some s
strip_prefix-append [] s = refl
strip_prefix-append (c ∷ p) s = ground (arith, strip_prefix-append p s)

-- One copy of the prefix goes.
pub trim_start_matches-prefix :
    (p : ℕ) (ps s : Str)
    → strip_prefix (p ∷ ps) s ≡ none
    → trim_start_matches (p ∷ ps) ((p ∷ ps) ++ s) ≡ s
unfolding trim_start_matches trim_rounds
trim_start_matches-prefix p ps s h =
    rw (strip_prefix-append (p ∷ ps) s, trim_rounds)
      (trim_rounds-fixed (p ∷ ps) (length (ps ++ s)) s h)

-- The first character, or the last one, does not pass the test.
abbrev pub NotFirst : (ℕ → Bool) → Str → Type 0
NotFirst p [] = Unit
NotFirst p (c ∷ s) = p c ≡ false

abbrev pub NotLast : (ℕ → Bool) → Str → Type 0
NotLast p [] = Unit
NotLast p (c ∷ []) = p c ≡ false
NotLast p (c ∷ d ∷ s) = NotLast p (d ∷ s)

pub trim_start_while-fixed : (p : ℕ → Bool) (s : Str) → NotFirst p s → trim_start_while p s ≡ s
trim_start_while-fixed p [] h = refl
trim_start_while-fixed p (c ∷ s) h = rw h

pub trim_end_while-fixed : (p : ℕ → Bool) (s : Str) → NotLast p s → trim_end_while p s ≡ s
trim_end_while-fixed p [] h = refl
trim_end_while-fixed p (c ∷ []) h = rw h
trim_end_while-fixed p (c ∷ d ∷ s) h = rw (trim_end_while-fixed p (d ∷ s) h)

pub trim_start_while-NotFirst : (p : ℕ → Bool) (s : Str) → NotFirst p (trim_start_while p s)
trim_start_while-NotFirst p [] = tt
trim_start_while-NotFirst p (c ∷ s) = elim (Bool-cases (p c)) [
  | inl e ↦ rw e (trim_start_while-NotFirst p s)
  | inr e ↦ rw e e
]

-- Neither end is white space.
abbrev pub IsTrimmed : Str → Type 0
IsTrimmed s = NotFirst is_whitespace s × NotLast is_whitespace s

pub trim-fixed : (s : Str) → IsTrimmed s → trim s ≡ s
unfolding trim
trim-fixed s h =
    rw (trim_start_while-fixed is_whitespace s h.0) (trim_end_while-fixed is_whitespace s h.1)

pub NotLast-weaken :
    (p q : ℕ → Bool) (s : Str) → ((c : ℕ) → p c ≡ false → q c ≡ false) → NotLast p s → NotLast q s
NotLast-weaken p q [] k h = tt
NotLast-weaken p q (c ∷ []) k h = k c h
NotLast-weaken p q (c ∷ d ∷ s) k h = NotLast-weaken p q (d ∷ s) k h

-- A carriage return is white space.
pub cr_of_whitespace : (c : ℕ) → is_whitespace c ≡ false → (c == 0x0D) ≡ false
unfolding is_whitespace
cr_of_whitespace c h = ground arith
