-- ===== src/Base/Io.antt =====
-- Calls that change a state and may fail: the new state, and a result or an error. The state comes
-- back after an error too.
use mathlib.Core.Path.{◌≡◌, refl}
use mathlib.Core.Bool.{Bool, true, false}
use package.paper_name_plate.Base.Tests.{if◌then◌else◌}
use native.Mathlib.Omega.{arith}
use package.paper_name_plate.Base.Results.{Result, ok, err}

abbrev pub Io : Type 0 → Type 0 → Type 0 → Type 0
Io S E A = S → S × Result E A

module _ {S E : Type 0} where
  unfoldable pub pure : {A : Type 0} → A → Io S E A
  pure a s = (s, ok a)

  unfoldable pub fail : {A : Type 0} → E → Io S E A
  fail e s = (s, err e)

  -- What follows a call: it goes on with the result, or the error ends it.
  abbrev pub continue : {A B : Type 0} → S × Result E A → (A → Io S E B) → S × Result E B
  continue (s, ok a) f = f a s
  continue (s, err e) f = (s, err e)

  -- A chain that succeeds is its first call, which succeeds, and then the rest.
  pub continue-ok :
      {A B : Type 0} (r : S × Result E A) (f : A → Io S E B) {b : B}
      → (continue r f).1 ≡ ok b
      → (a : A) × (r.1 ≡ ok a) × (continue r f ≡ f a r.0) × ((f a r.0).1 ≡ ok b)
  continue-ok (s, ok a) f h = (a, refl, refl, h)
  continue-ok (s, err e) f h = absurd (ground arith)

  -- What holds of the state behind the first call, and behind the rest, holds behind the chain.
  pub continue-state {ℓ} :
      (P : S → Type ℓ) {A B : Type 0} (r : S × Result E A) (f : A → Io S E B)
      → P r.0
      → ((a : A) → r.1 ≡ ok a → P (f a r.0).0)
      → P (continue r f).0
  continue-state P (s, ok a) f h k = k a refl
  continue-state P (s, err e) f h k = h

  infixl 5 ◌>>=◌ ◌>>◌
  unfoldable pub ◌>>=◌ : {A B : Type 0} → Io S E A → (A → Io S E B) → Io S E B
  ◌>>=◌ m f s = continue (m s) f

  abbrev pub ◌>>◌ : {A B : Type 0} → Io S E A → Io S E B → Io S E B
  m >> k = m >>= λ _. k

  unfoldable pub update : (S → S) → Io S E (Unit {0})
  update f s = (f s, ok tt)

  unfoldable pub gets : {A : Type 0} → (S → A) → Io S E A
  gets f s = (s, ok (f s))

-- An error of the inner call becomes one of the outer, as `?` does.
abbrev pub map_error : {E F A : Type 0} → (E → F) → Result E A → Result F A
map_error g (ok a) = ok a
map_error g (err e) = err (g e)

unfoldable pub lift : {S E F A : Type 0} → (E → F) → Io S E A → Io S F A
lift g m s = let r = m s in (r.0, map_error g r.1)

-- A call behind which the state has the property `P`, if it had it before.
pub record Keeps {S E A : Type 0} (P : S → Type 0) (m : Io S E A) : Type 0 where
  pub keep : (s : S) → P s → P (m s).0

module _ {S E : Type 0} {P : S → Type 0} where
  pub Keeps-pure : {A : Type 0} (a : A) → Keeps P (pure {S = S} {E = E} a)
  unfolding pure
  Keeps-pure a = record { keep = λ s h. h }

  pub Keeps-fail : {A : Type 0} (e : E) → Keeps P (fail {S = S} {E = E} {A = A} e)
  unfolding fail
  Keeps-fail e = record { keep = λ s h. h }

  pub Keeps-gets : {A : Type 0} (f : S → A) → Keeps P (gets {S = S} {E = E} f)
  unfolding gets
  Keeps-gets f = record { keep = λ s h. h }

  pub Keeps-update : (f : S → S) → ((s : S) → P s → P (f s)) → Keeps P (update {S = S} {E = E} f)
  unfolding update
  Keeps-update f h = record { keep = h }

  pub Keeps-if :
      {A : Type 0} (t : Bool) (m n : Io S E A)
      → Keeps P m
      → Keeps P n
      → Keeps P (if t then m else n)
  Keeps-if true m n km kn = km
  Keeps-if false m n km kn = kn

  pub Keeps-bind :
      {A B : Type 0} (m : Io S E A) (f : A → Io S E B)
      → Keeps P m
      → ((a : A) → Keeps P (f a))
      → Keeps P (m >>= f)
  unfolding ◌>>=◌
  Keeps-bind m f km kf = record {
    keep = λ s h. continue-state P (m s) f (km.keep s h) (λ a e. (kf a).keep (m s).0 (km.keep s h));
  }

  -- What follows a look at the state may rest on what holds there.
  pub Keeps-gets-bind :
      {A B : Type 0} (f : S → A) (k : A → Io S E B)
      → ((s : S) → P s → P (k (f s) s).0)
      → Keeps P (gets f >>= k)
  unfolding ◌>>=◌ gets
  Keeps-gets-bind f k h = record { keep = h }

pub ruleset keeps_rules = (Keeps-pure, Keeps-fail, Keeps-gets, Keeps-if, Keeps-bind)

-- A call that returns a result from every state.
pub record Total {S E A : Type 0} (m : Io S E A) : Type 0 where
  pub returns : (s : S) → (a : A) × ((m s).1 ≡ ok a)

module _ {S E : Type 0} where
  pub Total-pure : {A : Type 0} (a : A) → Total (pure {S = S} {E = E} a)
  unfolding pure
  Total-pure a = record { returns = λ s. (a, refl) }

  pub Total-gets : {A : Type 0} (f : S → A) → Total (gets {S = S} {E = E} f)
  unfolding gets
  Total-gets f = record { returns = λ s. (f s, refl) }

  pub Total-update : (f : S → S) → Total (update {S = S} {E = E} f)
  unfolding update
  Total-update f = record { returns = λ s. (tt, refl) }

  pub Total-if :
      {A : Type 0} (t : Bool) (m n : Io S E A) → Total m → Total n → Total (if t then m else n)
  Total-if true m n tm tn = tm
  Total-if false m n tm tn = tn

  pub Total-bind :
      {A B : Type 0} (m : Io S E A) (f : A → Io S E B)
      → Total m
      → ((a : A) → Total (f a))
      → Total (m >>= f)
  unfolding ◌>>=◌
  Total-bind {A} {B} m f tm tf = record { returns = λ s. follow (m s) (tm.returns s) }
    where
      follow : (r : S × Result E A) → (a : A) × (r.1 ≡ ok a) → (b : B) × ((continue r f).1 ≡ ok b)
      follow (s, ok x) h = (tf x).returns s
      follow (s, err e) h = absurd (let (a, e') = h in ground arith)

pub ruleset total_rules = (Total-pure, Total-gets, Total-update, Total-if, Total-bind)
