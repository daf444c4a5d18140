-- ===== src/Memory/Open/Tests.antt =====
-- A test of the constructor.
use hft_demo.Common.{ℕ, ◌≡◌, ◌↔◌, inr, refl, List, [], ◌∷◌, none, some}
use hft_demo.Memory.{
  open_only, Region, SharedMemory, ipc_magic, ipc_version, shared_memory, lock, attach,
  get_objects_size, get_size_with_padding, object_offsets,
}
use hft_demo.Memory.Open.{IsUsable, attached, open_lem}

abbrev two_sizes : List ℕ
two_sizes = 64 ∷ 200 ∷ []

-- What another process has created.
abbrev created : Region
created = record {
  address = 4096;
  size = 320;
  mlock_error = none;
  found = record { magic = ipc_magic; version = ipc_version; heartbeat_seconds = 5 };
}

abbrev opened : SharedMemory
opened = record { meta = created.found; objects = 64 ∷ [] }

created_opens : shared_memory 64 two_sizes open_only (some created) ≡ inr opened
unfolding shared_memory lock attach get_objects_size get_size_with_padding object_offsets
created_opens = refl

open_lem_example :
    (shared_memory 64 two_sizes open_only (some created) ≡ inr opened)
    ↔ (IsUsable 64 two_sizes open_only created × (attached 64 two_sizes open_only created ≡ opened))
open_lem_example = open_lem 64 two_sizes open_only created opened
