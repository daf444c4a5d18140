-- ===== src/Memory.antt =====
-- lib/interprocess/shared_memory.hpp and lib/interprocess/interprocess_meta.hpp: where the objects of
-- a shared memory lie, how it is created or opened, and its heartbeat.
pub mod Layout
pub mod Open
use hft_demo.Common.{
  ℕ, ◌+◌, ◌-◌, ◌%◌, Bool, true, false, not, List, [], ◌∷◌, Option, none, some, ◌⊎◌, inl, inr, ltb,
  ◌==◌, if◌then◌else◌, add32, u32_mod,
}

-- `kIpcVersion` and `kIpcMagic`
abbrev pub ipc_version : ℕ
ipc_version = 21

abbrev pub ipc_magic : ℕ
ipc_magic = 547_892

-- `GetSizeWithPadding` of an object of `size` bytes.
unfoldable pub get_size_with_padding : (alignment size : ℕ) → ℕ
get_size_with_padding alignment size =
    let remainder = size % alignment in
    if remainder == 0 then size % u32_mod else (size + alignment - remainder) % u32_mod

-- `GetObjectsSize` of objects of these sizes.
unfoldable pub get_objects_size : (alignment : ℕ) → List ℕ → ℕ
get_objects_size alignment [] = 0
get_objects_size alignment (size ∷ sizes) =
    add32 (get_size_with_padding alignment size) (get_objects_size alignment sizes)

-- The places of the objects, from an offset on, in `CreateObjectsInBuffer` and in
-- `FetchObjectsFromBuffer`.
unfoldable pub object_offsets : (alignment offset : ℕ) → List ℕ → List ℕ
object_offsets alignment offset [] = []
object_offsets alignment offset (size ∷ sizes) =
    offset ∷ object_offsets alignment (add32 offset (get_size_with_padding alignment size)) sizes

-- `MemoryRole`
pub data MemoryRole : Type 0 where
  create_only open_only : MemoryRole

-- `SharedMemory::Meta`
pub record Meta : Type 0 where
  pub magic : ℕ
  pub version : ℕ
  pub heartbeat_seconds : ℕ

-- `Meta` as its constructor leaves it.
abbrev pub new_meta : Meta
new_meta = record { magic = ipc_magic; version = ipc_version; heartbeat_seconds = 0 }

-- What the operating system gives for a name: the address and the size of the mapped region, the
-- error of mlock if it fails, and the bytes at the region's start, seen as a `Meta`.
pub record Region : Type 0 where
  pub address : ℕ
  pub size : ℕ
  pub mlock_error : Option ℕ
  pub found : Meta

-- The reason of a failed mlock, by the error numbers of Linux.
pub data LockFailure : Type 0 where
  no_memory not_aligned not_permitted : LockFailure
  other : ℕ → LockFailure

abbrev pub lock_failure : (error_code : ℕ) → LockFailure
lock_failure error_code =
    if error_code == 12
    then no_memory
    else if error_code == 22
    then not_aligned
    else if error_code == 1
    then not_permitted
    else other error_code

-- What the constructor throws.
pub data Failure : Type 0 where
  no_region invalid_alignment invalid_size magic_missed version_conflict : Failure
  mlock_failed : LockFailure → Failure

-- The members that a constructor leaves: `meta_` and `objects_`, as offsets in the region.
pub record SharedMemory : Type 0 where
  pub meta : Meta
  pub objects : List ℕ

-- The objects of the region, behind the `Meta`.
abbrev pub objects_of : (alignment : ℕ) → (sizes : List ℕ) → List ℕ
objects_of alignment [] = []
objects_of alignment (meta_size ∷ sizes) =
    object_offsets alignment (get_size_with_padding alignment meta_size) sizes

-- The end of the constructor, behind mlock; `sizes` starts with that of `Meta`.
unfoldable pub attach :
    (alignment : ℕ) (sizes : List ℕ) → MemoryRole → Region → Failure ⊎ SharedMemory
attach alignment sizes create_only r =
    inr (record { meta = new_meta; objects = objects_of alignment sizes })
attach alignment sizes open_only r =
    if not (r.found.magic == ipc_magic)
    then inl magic_missed
    else if not (r.found.version == ipc_version)
    then inl version_conflict
    else inr (record { meta = r.found; objects = objects_of alignment sizes })

-- The call of mlock.
unfoldable pub lock :
    (alignment : ℕ) (sizes : List ℕ) → MemoryRole → Region → Option ℕ → Failure ⊎ SharedMemory
lock alignment sizes role r none = attach alignment sizes role r
lock alignment sizes role r (some error_code) = inl (mlock_failed (lock_failure error_code))

-- The constructor; `none` stands for an exception of Boost.
unfoldable pub shared_memory :
    (alignment : ℕ) (sizes : List ℕ) → MemoryRole → Option Region → Failure ⊎ SharedMemory
shared_memory alignment sizes role none = inl no_region
shared_memory alignment sizes role (some r) =
    if not (r.address % alignment == 0)
    then inl invalid_alignment
    else if not (r.size == get_objects_size alignment sizes)
    then inl invalid_size
    else lock alignment sizes role r r.mlock_error

-- `IsProducerAlive` at the time `now`.
unfoldable pub is_producer_alive : SharedMemory → (threshold_seconds now : ℕ) → Bool
is_producer_alive m threshold_seconds now =
    ltb now (add32 m.meta.heartbeat_seconds threshold_seconds)

-- `UpdateHeartbeat` at the time `now`.
unfoldable pub update_heartbeat : SharedMemory → (now : ℕ) → SharedMemory
update_heartbeat m now = record m { meta = record (m.meta) { heartbeat_seconds = now % u32_mod } }
