-- ===== src/Ring/Slots.antt =====
-- The places of a ring in the order in which they are read.
use hft_demo.Common.{
  ℕ, zero, suc, ◌+◌, ◌-◌, ◌^◌, ◌%◌, ◌≤◌, ◌<◌, ◌≡◌, ◌⊎◌, inl, inr, refl, ap₂, ◌∙◌, List, [], ◌∷◌,
  ◌++◌, arith, ltb, ◌==◌, if◌then◌else◌, length, get_or, set, get_or-set_self, get_or-set_ne, add32,
  u32_mod,
}
use native.Mathlib.Nat.{mod_self, mod-eq_of_lt, one-le-pow}
use hft_demo.Common.Bits.{bit_and_mask}
use hft_demo.Ring.{increment}

-- The place after `i` of `n`.
abbrev pub next : ℕ → ℕ → ℕ
next n i = if i + 1 == n then 0 else i + 1

-- How far ahead of `t` the place `k` is, from 1 to `n`.
abbrev pub ahead : ℕ → ℕ → ℕ → ℕ
ahead n t k = if ltb t k then k - t else k + n - t

-- The contents of the `c` places after `t`.
abbrev pub slots {ℓ} : {A : Type ℓ} → ℕ → A → List A → (t c : ℕ) → List A
slots n d places t zero = []
slots n d places t (suc c) = get_or places (next n t) d ∷ slots n d places (next n t) c

-- `Increment` of a power of two up to 2 ^ 32 is the step around the ring.
pub increment_lem : (k i : ℕ) → i < 2 ^ k → 2 ^ k ≤ u32_mod → increment (2 ^ k) i ≡ next (2 ^ k) i
unfolding increment
increment_lem k i h small = elim (lt-cases) [
  | inl inside ↦ bit_and_mask k (add32 i 1) ∙ ground (arith, mod-eq_of_lt inside)
  | inr last ↦ bit_and_mask k (add32 i 1) ∙ wrapped last
]
  where
    lt-cases : (i + 1 < 2 ^ k) ⊎ (i + 1 ≡ 2 ^ k)
    lt-cases = ground arith

    wrapped : i + 1 ≡ 2 ^ k → add32 i 1 % 2 ^ k ≡ next (2 ^ k) i
    wrapped last = ground (arith, mod_self (2 ^ k), one-le-pow k 2)

module _ {ℓ} {A : Type ℓ} (n : ℕ) (d : A) where
  -- A write beyond them does not change them.
  pub slots-set-ahead :
      (places : List A) (t c k : ℕ) (x : A)
      → t < n
      → k < n
      → c < ahead n t k
      → slots n d (set places k x) t c ≡ slots n d places t c
  slots-set-ahead places t zero k x ht hk h = refl
  slots-set-ahead places t (suc c) k x ht hk h =
      ap₂ ◌∷◌ (get_or-set_ne places {i = k} {j = next n t} x d (ground arith))
        (slots-set-ahead places (next n t) c k x (ground arith) hk (ground arith))

  -- A write just behind them adds one.
  pub slots-set-next :
      (places : List A) (t c k : ℕ) (x : A)
      → length places ≡ n
      → t < n
      → k < n
      → ahead n t k ≡ suc c
      → slots n d (set places k x) t (suc c) ≡ slots n d places t c ++ x ∷ []
  slots-set-next places t zero k x whole ht hk h =
      let same : next n t ≡ k = ground arith in
      rw (same, get_or-set_self places k x d (omega arith))
  slots-set-next places t (suc c) k x whole ht hk h =
      ap₂ ◌∷◌ (get_or-set_ne places {i = k} {j = next n t} x d (ground arith))
        (slots-set-next places (next n t) c k x whole (ground arith) hk (ground arith))

  -- One place more.
  pub slots-snoc :
      (places : List A) (t c k : ℕ)
      → t < n
      → k < n
      → ahead n t k ≡ suc c
      → slots n d places t (suc c) ≡ slots n d places t c ++ get_or places k d ∷ []
  slots-snoc places t zero k ht hk h = let same : next n t ≡ k = ground arith in rw same
  slots-snoc places t (suc c) k ht hk h =
      ap₂ ◌∷◌ refl (slots-snoc places (next n t) c k (ground arith) hk (ground arith))
