-- ===== src/Ring/Fill.antt =====
-- A ring that several elements are written to.
use hft_demo.Common.{
  ℕ, ◌+◌, ◌^◌, ◌≤◌, ◌<◌, ◌≡◌, refl, ap, sym, ◌∙◌, List, [], ◌∷◌, ◌++◌, append-nil, append_assoc,
  arith, length, length-append, u32_mod, ◌==◌, false,
}
use hft_demo.Ring.{Ring, write}
use hft_demo.Ring.Queue.{live, queue_write, view, IsValid, write_refines, write-IsValid}

abbrev pub fill : {A : Type 0} → ℕ → Ring A → List A → Ring A
fill n r [] = r
fill n r (x ∷ xs) = fill n (write n r x) xs

module _ {A : Type 0} (k : ℕ) (small : 2 ^ k ≤ u32_mod) where
  pub fill-IsValid :
      (r : Ring A) (xs : List A) → IsValid (2 ^ k) r → IsValid (2 ^ k) (fill (2 ^ k) r xs)
  fill-IsValid r [] v = v
  fill-IsValid r (x ∷ xs) v = fill-IsValid (write (2 ^ k) r x) xs (write-IsValid k small r x v)

  -- Elements that leave a place free are queued in their order.
  pub view-fill :
      (d : A) (r : Ring A) (xs ys : List A)
      → IsValid (2 ^ k) r
      → view (2 ^ k) d r ≡ live ys
      → length ys + length xs < 2 ^ k
      → view (2 ^ k) d (fill (2 ^ k) r xs) ≡ live (ys ++ xs)
  view-fill d r [] ys v e fits = e ∙ ap live (sym (append-nil ys))
  view-fill d r (x ∷ xs) ys v e fits =
      let room : (length ys + 1 == 2 ^ k) ≡ false = ground arith in
      let written : view (2 ^ k) d (write (2 ^ k) r x) ≡ live (ys ++ x ∷ []) =
        write_refines k small d r x v ∙ ap (λ q. queue_write (2 ^ k) q x) e ∙ rw (room) refl in
      view-fill d (write (2 ^ k) r x) xs (ys ++ x ∷ []) (write-IsValid k small r x v) written
        (omega (arith, length-append ys (x ∷ [])))
      ∙ ap live (append_assoc ys (x ∷ []) xs)
