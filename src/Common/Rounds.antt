-- ===== src/Common/Rounds.antt =====
-- A loop as a sequence of rounds that each get an input; it ends with the first round that returns
-- false. Two loops that go in step stay in step.
use mathlib.Core.Path.{◌≡◌, refl}
use mathlib.Core.Logic.{inl, inr}
use mathlib.Core.Bool.{Bool, true}
use mathlib.Core.List.{List, [], ◌∷◌, ◌++◌}
use hft_demo.Common.Tests.{if◌then◌else◌, Bool-cases}

abbrev pub rounds : {M S : Type 0} → (M → S → S × Bool) → List M → S → S × Bool
rounds step [] s = (s, true)
rounds step (m ∷ ms) s =
    let rest = rounds step ms (step m s).0 in if (step m s).1 then rest else step m s

pub rounds-append :
    {M S : Type 0} (step : M → S → S × Bool) (ms : List M) (m : M) (s : S)
    → (rounds step ms s).1 ≡ true
    → rounds step (ms ++ m ∷ []) s ≡ rounds step (m ∷ []) (rounds step ms s).0
rounds-append step [] m s on = refl
rounds-append step (k ∷ ms) m s on = elim (Bool-cases (step k s).1) [
  | inl goes ↦ rw (goes) (rounds-append step ms m (step k s).0 (rw goes at on))
  | inr stops ↦ cc (rw stops at on)
]

module _ {M S A : Type 0} (R : S → A → Type 0) (f : M → S → S × Bool) (g : M → A → A × Bool)
    (step : (m : M) (s : S) (a : A) → R s a → R (f m s).0 (g m a).0 × ((f m s).1 ≡ (g m a).1)) where
  pub rounds-simulate :
      (ms : List M) (s : S) (a : A)
      → R s a
      → R (rounds f ms s).0 (rounds g ms a).0 × ((rounds f ms s).1 ≡ (rounds g ms a).1)
  rounds-simulate [] s a r = (r, refl)
  rounds-simulate (m ∷ ms) s a r =
      let (r', same) = step m s a r in
      elim (Bool-cases (g m a).1) [
        | inl goes ↦ rw (same, goes) (rounds-simulate ms (f m s).0 (g m a).0 r')
        | inr stops ↦ rw (same, stops) (r', refl)
      ]
