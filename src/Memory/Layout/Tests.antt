-- ===== src/Memory/Layout/Tests.antt =====
-- A test of the layout.
use hft_demo.Common.{ℕ, ◌≡◌, refl, List, [], ◌∷◌, arith}
use hft_demo.Memory.{get_size_with_padding, get_objects_size, object_offsets}
use hft_demo.Memory.Layout.{IsLaidOut, layout_lem}

-- A `Meta` and two objects.
abbrev three_sizes : List ℕ
three_sizes = 64 ∷ 262_272 ∷ 262_200 ∷ []

three_offsets : object_offsets 64 0 three_sizes ≡ 0 ∷ 64 ∷ 262_336 ∷ []
unfolding object_offsets get_size_with_padding
three_offsets = refl

layout_lem_example :
    IsLaidOut 64 0 (get_objects_size 64 three_sizes) three_sizes (object_offsets 64 0 three_sizes)
layout_lem_example = layout_lem 64 three_sizes (omega arith) (omega arith)
