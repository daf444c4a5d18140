-- ===== src/Common/Move.antt =====
-- std::memmove between two places of one array.
use Prim.Native.Nat.{ℕ, ◌+◌, ◌-◌, ◌≤◌, ◌<◌}
use mathlib.Core.Path.{◌≡◌, ◌∙◌}
use mathlib.Core.Bool.{◌&&◌, false, true}
use mathlib.Core.List.{List, ◌++◌}
use native.Mathlib.Decide.{dec_lt}
use native.Mathlib.Omega.{arith}
use hft_demo.Common.Tests.{ltb, leb, if◌then◌else◌}
use hft_demo.Common.Lists.{
  length, get_elem?, take, drop, length-append, length-take, length-drop, get_elem?-drop,
  get_elem?-append_at, get_elem?-append_left, get_elem?-take_lt, get_elem?-drop_at,
}

module _ {ℓ} {A : Type ℓ} where
  -- `n` elements from index `src` on are copied to index `dst` on, as if through a temporary.
  unfoldable pub memmove : ℕ → ℕ → ℕ → List A → List A
  memmove dst src n xs = take dst xs ++ (take n (drop src xs) ++ drop (dst + n) xs)

  module _ (dst src n : ℕ) (xs : List A) (hd : dst + n ≤ length xs) (hs : src + n ≤ length xs) where
    pub length-memmove : length (memmove dst src n xs) ≡ length xs
    unfolding memmove
    length-memmove = omega (
      arith,
      length-append (take dst xs) (take n (drop src xs) ++ drop (dst + n) xs),
      length-append (take n (drop src xs)) (drop (dst + n) xs),
      length-take dst xs,
      length-take n (drop src xs),
      length-drop src xs,
      length-drop (dst + n) xs,
    )

    pub get_elem?-memmove :
        (i : ℕ)
        → get_elem? (memmove dst src n xs) i ≡ (
            if leb dst i && ltb i (dst + n) then get_elem? xs (src + (i - dst)) else get_elem? xs i)
    unfolding memmove
    get_elem?-memmove i = elim (dec_lt i dst) [
      | yes low ↦ rw (test_before low) (
          get_elem?-append_left (take dst xs) _ i (omega (arith, length-take dst xs))
          ∙ get_elem?-take_lt dst i xs low)
      | no low ↦ elim (dec_lt i (dst + n)) [
        | yes high ↦ rw (test_inside low high) (
            get_elem?-append_at (take dst xs) _ i (i - dst) (omega (arith, length-take dst xs))
            ∙ get_elem?-append_left (take n (drop src xs)) _ (i - dst)
                (omega (arith, length-take n (drop src xs), length-drop src xs))
            ∙ get_elem?-take_lt n (i - dst) (drop src xs) (omega arith)
            ∙ get_elem?-drop src (i - dst) xs)
        | no high ↦ rw (test_behind high) (
            get_elem?-append_at (take dst xs) _ i (i - dst) (omega (arith, length-take dst xs))
            ∙ get_elem?-append_at (take n (drop src xs)) _ (i - dst) (i - dst - n)
                (omega (arith, length-take n (drop src xs), length-drop src xs))
            ∙ get_elem?-drop_at (dst + n) (i - dst - n) i xs (omega arith))
      ]
    ]
      where
        test_before : i < dst → (leb dst i && ltb i (dst + n)) ≡ false
        test_before h = ground arith

        test_inside : ¬ (i < dst) → i < dst + n → (leb dst i && ltb i (dst + n)) ≡ true
        test_inside h k = ground arith

        test_behind : ¬ (i < dst + n) → (leb dst i && ltb i (dst + n)) ≡ false
        test_behind h = ground arith
