-- ===== src/Pipeline/Judge/Rules.antt =====
-- How a step that may raise is reasoned about
-- (src/dodeal_ai/units/structured_intelligence/pipeline.py, `_judge`).
use do_deal_ai.Prelude.{◌≡◌, refl, true, false, inl, inr, Fallible, err, ok, Bool-cases}
use do_deal_ai.Pipeline.Judge.{Raised, cancellation, Stage, Run, Body, and_then, await_at, lift}

module _ {S : Type 0} where
  -- How a step ends: with a value and a store of the one kind, or with an exception and a store of
  -- the other.
  abbrev pub Ends :
      {A : Type 0} → (A → S → Type 0) → (Raised → S → Type 0) → Fallible Raised A × S → Type 0
  Ends Good Bad (err e, s) = Bad e s
  Ends Good Bad (ok a, s) = Good a s

  pub Ends-and_then :
      {A B : Type 0} (Mid : A → S → Type 0) (Good : B → S → Type 0) (Bad : Raised → S → Type 0)
      (next : A → Body S B) (r : Fallible Raised A × S)
      → Ends Mid Bad r
      → ((a : A) (s : S) → Mid a s → Ends Good Bad (next a s))
      → Ends Good Bad (and_then next r)
  Ends-and_then Mid Good Bad next (err e, s) h rest = h
  Ends-and_then Mid Good Bad next (ok a, s) h rest = rest a s h

  pub Ends-weaken :
      {A : Type 0} (Good Good' : A → S → Type 0) (Bad Bad' : Raised → S → Type 0)
      (r : Fallible Raised A × S)
      → ((a : A) (s : S) → Good a s → Good' a s)
      → ((e : Raised) (s : S) → Bad e s → Bad' e s)
      → Ends Good Bad r
      → Ends Good' Bad' r
  Ends-weaken Good Good' Bad Bad' (err e, s) f g h = g e s h
  Ends-weaken Good Good' Bad Bad' (ok a, s) f g h = f a s h

  module _ {B : Type 0} (Good : B → S → Type 0) (Bad : Raised → S → Type 0) (s : S) where
    -- An await either goes on or raises where it stands.
    pub Ends-await_at :
        (run : Run) (stage : Stage) (next : Unit {0} → Body S B)
        → (run.cancelled stage ≡ true → Bad cancellation s)
        → (run.cancelled stage ≡ false → Ends Good Bad (next tt s))
        → Ends Good Bad (and_then next (await_at run stage s))
    Ends-await_at run stage next bad rest = elim (Bool-cases (run.cancelled stage)) [
      | inl e ↦ rw e (bad e)
      | inr e ↦ rw e (rest e)
    ]

    -- A value that may be an exception.
    pub Ends-lift :
        {A : Type 0} (r : Fallible Raised A) (next : A → Body S B)
        → ((e : Raised) → r ≡ err e → Bad e s)
        → ((a : A) → r ≡ ok a → Ends Good Bad (next a s))
        → Ends Good Bad (and_then next (lift r s))
    Ends-lift (err e) next bad rest = bad e refl
    Ends-lift (ok a) next bad rest = rest a refl
