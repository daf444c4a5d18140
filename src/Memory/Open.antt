-- ===== src/Memory/Open.antt =====
-- When a shared memory can be created or opened.
mod Tests
use hft_demo.Common.{
  ℕ, ◌%◌, ◌≡◌, ◌↔◌, ◌⊎◌, inl, inr, refl, Bool, true, false, not, List, Option, none, some,
  Bool-cases, Option-cases, arith, ap, ◌∙◌, ◌≢◌, ◌==◌, ==_iff, if◌then◌else◌,
}
use hft_demo.Memory.{
  ipc_version, ipc_magic, get_objects_size, MemoryRole, create_only, open_only, Meta, new_meta,
  Region, SharedMemory, Failure, objects_of, no_region, invalid_alignment, invalid_size,
  magic_missed, version_conflict, mlock_failed, lock_failure, attach, lock, shared_memory,
}

-- The region fits the types, it is locked, and what is opened was written by this version.
pub record IsUsable (alignment : ℕ) (sizes : List ℕ) (role : MemoryRole) (r : Region) : Type 0 where
  pub aligned : r.address % alignment ≡ 0
  pub whole : r.size ≡ get_objects_size alignment sizes
  pub locked : r.mlock_error ≡ none
  pub magic : role ≡ open_only → r.found.magic ≡ ipc_magic
  pub version : role ≡ open_only → r.found.version ≡ ipc_version

-- The memory that a usable region becomes.
abbrev pub attached : (alignment : ℕ) (sizes : List ℕ) → MemoryRole → Region → SharedMemory
attached alignment sizes create_only r = record {
  meta = new_meta;
  objects = objects_of alignment sizes;
}
attached alignment sizes open_only r = record {
  meta = r.found;
  objects = objects_of alignment sizes;
}

IsUsable-attached :
    (alignment : ℕ) (sizes : List ℕ) (role : MemoryRole) (r : Region)
    → IsUsable alignment sizes role r
    → shared_memory alignment sizes role (some r) ≡ inr (attached alignment sizes role r)
unfolding shared_memory lock attach
IsUsable-attached alignment sizes create_only r v = rw (v.aligned, v.whole, v.locked) (ground arith)
IsUsable-attached alignment sizes open_only r v =
    rw (v.aligned, v.whole, v.locked, v.magic refl, v.version refl) (ground arith)

pub inl≢inr : (f : Failure) (m : SharedMemory) → inl f ≢ inr m
inl≢inr f m e = cc (e)

attached-IsUsable :
    (alignment : ℕ) (sizes : List ℕ) (role : MemoryRole) (r : Region) (m : SharedMemory)
    → r.address % alignment ≡ 0
    → r.size ≡ get_objects_size alignment sizes
    → r.mlock_error ≡ none
    → attach alignment sizes role r ≡ inr m
    → IsUsable alignment sizes role r
unfolding attach
attached-IsUsable alignment sizes create_only r m aligned whole locked e = record {
  aligned = aligned;
  whole = whole;
  locked = locked;
  magic = λ no. cc (no);
  version = λ no. cc (no);
}
attached-IsUsable alignment sizes open_only r m aligned whole locked e =
    elim (Bool-cases (r.found.magic == ipc_magic)) [
      | inr bad ↦ absurd (inl≢inr magic_missed m (rw bad at e))
      | inl good ↦ elim (Bool-cases (r.found.version == ipc_version)) [
        | inr old ↦ absurd (inl≢inr version_conflict m (rw (good, old) at e))
        | inl current ↦ record {
          aligned = aligned;
          whole = whole;
          locked = locked;
          magic = λ _. ground (arith, good);
          version = λ _. ground (arith, current);
        }
      ]
    ]

locked-IsUsable :
    (alignment : ℕ) (sizes : List ℕ) (role : MemoryRole) (r : Region) (m : SharedMemory)
    (error : Option ℕ)
    → r.address % alignment ≡ 0
    → r.size ≡ get_objects_size alignment sizes
    → r.mlock_error ≡ error
    → lock alignment sizes role r error ≡ inr m
    → IsUsable alignment sizes role r
unfolding lock
locked-IsUsable alignment sizes role r m none aligned whole locked e =
    attached-IsUsable alignment sizes role r m aligned whole locked e
locked-IsUsable alignment sizes role r m (some code) aligned whole locked e =
    absurd (inl≢inr (mlock_failed (lock_failure code)) m e)

opened-IsUsable :
    (alignment : ℕ) (sizes : List ℕ) (role : MemoryRole) (r : Region) (m : SharedMemory)
    → shared_memory alignment sizes role (some r) ≡ inr m
    → IsUsable alignment sizes role r
unfolding shared_memory
opened-IsUsable alignment sizes role r m e = elim (Bool-cases (r.address % alignment == 0)) [
  | inr bad ↦ absurd (inl≢inr invalid_alignment m (rw bad at e))
  | inl aligned ↦ elim (Bool-cases (r.size == get_objects_size alignment sizes)) [
    | inr bad ↦ absurd (inl≢inr invalid_size m (rw (aligned, bad) at e))
    | inl whole ↦
        locked-IsUsable alignment sizes role r m r.mlock_error (ground (arith, aligned))
          (ground (arith, whole)) refl (rw (aligned, whole) at e)
  ]
]

-- The constructor succeeds exactly when the region is aligned, has the size of the objects, and can
-- be locked, and, where it is opened, holds the magic number and the version; a created memory then
-- has a new `Meta`, an opened one the `Meta` that it holds.
pub open_lem :
    (alignment : ℕ) (sizes : List ℕ) (role : MemoryRole) (r : Region) (m : SharedMemory)
    → (shared_memory alignment sizes role (some r) ≡ inr m)
      ↔ (IsUsable alignment sizes role r × (attached alignment sizes role r ≡ m))
open_lem alignment sizes role r m = (
  λ e.
      let v = opened-IsUsable alignment sizes role r m e in
      let same : attached alignment sizes role r ≡ m =
        cc (IsUsable-attached alignment sizes role r v, e) in
      (v, same),
  λ (v, e). IsUsable-attached alignment sizes role r v ∙ ap inr e,
)
