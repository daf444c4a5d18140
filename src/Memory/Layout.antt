-- ===== src/Memory/Layout.antt =====
-- Where the objects of a shared memory lie.
mod Tests
use native.Mathlib.Nat.{mod-eq_of_lt, div-add-mod', mod-lt, add-mod, add-mod_right, mul-mod_left}
use hft_demo.Common.{
  ℕ, ◌+◌, ◌-◌, ◌*◌, ◌/◌, ◌%◌, ◌≤◌, ◌<◌, ◌≡◌, refl, ap, ap₂, subst, ◌∙◌, Bool, true, false, List, [],
  ◌∷◌, inl, inr, Bool-cases, arith, ◌==◌, if◌then◌else◌, add32, u32_mod,
}
use hft_demo.Memory.{get_size_with_padding, get_objects_size, object_offsets}

-- The size with its padding as a number that does not wrap.
abbrev pub padded : (alignment size : ℕ) → ℕ
padded alignment size = if size % alignment == 0 then size else size + alignment - size % alignment

abbrev pub total : (alignment : ℕ) → List ℕ → ℕ
total alignment [] = 0
total alignment (size ∷ sizes) = padded alignment size + total alignment sizes

-- Objects of these sizes, at these offsets, lie one behind the other between `start` and `end`, each
-- at a multiple of the alignment.
abbrev pub IsLaidOut : (alignment start end : ℕ) → (sizes offsets : List ℕ) → Type 0
IsLaidOut alignment start end [] [] = start ≤ end
IsLaidOut alignment start end [] (_ ∷ _) = ⊥
IsLaidOut alignment start end (_ ∷ _) [] = ⊥
IsLaidOut alignment start end (size ∷ sizes) (offset ∷ offsets) =
    (start ≤ offset)
    × (offset % alignment ≡ 0)
    × IsLaidOut alignment (offset + size) end sizes offsets

padding_lem :
    (alignment size : ℕ)
    → 0 < alignment
    → (size ≤ padded alignment size) × (padded alignment size % alignment ≡ 0)
padding_lem alignment size some_alignment = elim (Bool-cases (size % alignment == 0)) [
  | inl whole ↦ rw (whole) (omega arith, ground (arith, whole))
  | inr part ↦
      let parts = div-add-mod' size alignment in
      let less = mod-lt size some_alignment in
      let same : size + alignment - size % alignment ≡ size / alignment * alignment + alignment =
        omega (arith, parts, less) in
      rw (part) (
        omega (arith, less),
        ap (λ n. n % alignment) same
            ∙ add-mod_right (size / alignment * alignment) alignment
            ∙ mul-mod_left (size / alignment) alignment,
      )
]

sum-aligned :
    (alignment m n : ℕ)
    → 0 < alignment
    → m % alignment ≡ 0
    → n % alignment ≡ 0
    → (m + n) % alignment ≡ 0
sum-aligned alignment m n some_alignment hm hn =
    add-mod m n alignment ∙ ap₂ (λ a b. (a + b) % alignment) hm hn ∙ mod-eq_of_lt some_alignment

get_size_with_padding-padded :
    (alignment size : ℕ)
    → padded alignment size < u32_mod
    → get_size_with_padding alignment size ≡ padded alignment size
unfolding get_size_with_padding
get_size_with_padding-padded alignment size fits = elim (Bool-cases (size % alignment == 0)) [
  | inl whole ↦ rw (whole) (mod-eq_of_lt (rw (whole) at fits))
  | inr part ↦ rw (part) (mod-eq_of_lt (rw (part) at fits))
]

get_objects_size-total :
    (alignment : ℕ) (sizes : List ℕ)
    → total alignment sizes < u32_mod
    → get_objects_size alignment sizes ≡ total alignment sizes
unfolding get_objects_size
get_objects_size-total alignment [] fits = refl
get_objects_size-total alignment (size ∷ sizes) fits =
    rw
      (
        get_size_with_padding-padded alignment size (omega arith),
        get_objects_size-total alignment sizes (omega arith),
      )
      (mod-eq_of_lt fits)

laid_out_lem :
    (alignment start offset : ℕ) (sizes : List ℕ)
    → 0 < alignment
    → start ≤ offset
    → offset % alignment ≡ 0
    → offset + total alignment sizes < u32_mod
    → IsLaidOut alignment start
        (offset + total alignment sizes)
        sizes
        (object_offsets alignment offset sizes)
unfolding object_offsets
laid_out_lem alignment start offset [] some_alignment before aligned fits = omega arith
laid_out_lem alignment start offset (size ∷ sizes) some_alignment before aligned fits =
    let (enough, is_aligned) = padding_lem alignment size some_alignment in
    let next = offset + padded alignment size in
    let moved : add32 offset (get_size_with_padding alignment size) ≡ next =
      ap (add32 offset) (get_size_with_padding-padded alignment size (omega arith))
      ∙ mod-eq_of_lt (omega arith) in
    let end : next + total alignment sizes
        ≡ offset + (padded alignment size + total alignment sizes) =
      omega arith in
    let rest =
      laid_out_lem alignment (offset + size) next sizes some_alignment (omega (arith, enough))
        (sum-aligned alignment offset (padded alignment size) some_alignment aligned is_aligned)
        (omega arith) in
    (
      before,
      aligned,
      rw moved (
          subst
            (λ e. IsLaidOut alignment (offset + size) e sizes (object_offsets alignment next sizes))
            end rest),
    )

-- The objects that a shared memory creates, and those that it fetches, lie one behind the other,
-- aligned, and inside the size that the memory gets, where the padded sizes together fit 32 bits.
pub layout_lem :
    (alignment : ℕ) (sizes : List ℕ)
    → 0 < alignment
    → total alignment sizes < u32_mod
    → IsLaidOut alignment 0
        (get_objects_size alignment sizes)
        sizes
        (object_offsets alignment 0 sizes)
layout_lem alignment sizes some_alignment fits =
    let end : 0 + total alignment sizes ≡ total alignment sizes = omega arith in
    rw (get_objects_size-total alignment sizes fits) (
      subst (λ e. IsLaidOut alignment 0 e sizes (object_offsets alignment 0 sizes)) end
        (laid_out_lem alignment 0 0 sizes some_alignment (omega arith) (mod-eq_of_lt some_alignment)
          (omega arith)))
