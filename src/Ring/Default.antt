-- ===== src/Ring/Default.antt =====
-- A valid ring stands for the same queue whatever value stands for a place out of range.
use hft_demo.Common.{
  ℕ, zero, suc, ◌^◌, ◌≤◌, ◌<◌, ◌≡◌, refl, ap, ap₂, ◌∙◌, inl, inr, Bool-cases, List, [], ◌∷◌, arith,
  length, get_or, u32_mod,
}
use hft_demo.Ring.{Ring, read}
use hft_demo.Ring.Slots.{next, slots}
use hft_demo.Ring.Queue.{Queue, live, queue_read, count, view, IsValid, read_refines, read-IsValid}

module _ {A : Type 0} where
  get_or-default : (xs : List A) (i : ℕ) (d d' : A) → i < length xs → get_or xs i d ≡ get_or xs i d'
  get_or-default [] i d d' h = absurd (omega arith)
  get_or-default (_ ∷ xs) zero d d' h = refl
  get_or-default (_ ∷ xs) (suc i) d d' h = get_or-default xs i d d' (omega arith)

  slots-default :
      (n : ℕ) (d d' : A) (places : List A) (t c : ℕ)
      → length places ≡ n
      → t < n
      → slots n d places t c ≡ slots n d' places t c
  slots-default n d d' places t zero whole h = refl
  slots-default n d d' places t (suc c) whole h =
      ap₂ ◌∷◌ (get_or-default places (next n t) d d' (ground arith))
        (slots-default n d d' places (next n t) c whole (ground arith))

  pub view-default : (n : ℕ) (d d' : A) (r : Ring A) → IsValid n r → view n d r ≡ view n d' r
  unfolding view
  view-default n d d' r v = elim (Bool-cases r.is_active_consumer) [
    | inl on ↦
        rw (on) (ap live (slots-default n d d' r.places r.tail (count n r) v.whole v.tail_in))
    | inr off ↦ rw (off) refl
  ]

  -- `Read` takes the first element of the queue, however the ring is read as one.
  pub read_default :
      (k : ℕ) (small : 2 ^ k ≤ u32_mod) (d : A) (r : Ring A) (out : A)
      → IsValid (2 ^ k) r
      → (view (2 ^ k) d (read (2 ^ k) r out).0, (read (2 ^ k) r out).1, (read (2 ^ k) r out).2)
        ≡ queue_read (view (2 ^ k) d r) out
  read_default k small d r out v =
      ap (λ (q : Queue A). (q, (read (2 ^ k) r out).1, (read (2 ^ k) r out).2))
        (view-default (2 ^ k) d out (read (2 ^ k) r out).0 (read-IsValid k small r out v))
      ∙ read_refines k small r out v
      ∙ ap (λ (q : Queue A). queue_read q out) (view-default (2 ^ k) out d r v)
