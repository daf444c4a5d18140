-- ===== src/Logger/Store.antt =====
-- The bytes that the formatter stores in a message.
use hft_demo.Common.{
  ℕ, zero, suc, ◌+◌, ◌-◌, min, ◌≤◌, ◌<◌, ◌≡◌, refl, ap, sym, ◌∙◌, List, [], ◌∷◌, ◌++◌, inl, inr,
  Bool-cases, append-nil, append_assoc, arith, leb, length, take, take_all, set, length-set,
}
use hft_demo.Logger.{store}

pub length-store :
    (message : List ℕ) (at : ℕ) (cs : List ℕ) → length (store message at cs) ≡ length message
length-store message at [] = refl
length-store message at (c ∷ cs) =
    length-store (set message at c) (at + 1) cs ∙ length-set message at c

pub take-set : (n at c : ℕ) (message : List ℕ) → n ≤ at → take n (set message at c) ≡ take n message
take-set zero at c message h = refl
take-set (suc n) at c [] h = refl
take-set (suc n) zero c (x ∷ xs) h = absurd (omega arith)
take-set (suc n) (suc at) c (x ∷ xs) h = ap (λ t. x ∷ t) (take-set n at c xs (omega arith))

pub take-set_end :
    (at c : ℕ) (message : List ℕ)
    → at < length message
    → take (suc at) (set message at c) ≡ take at message ++ c ∷ []
take-set_end at c [] h = absurd (omega arith)
take-set_end zero c (x ∷ xs) h = refl
take-set_end (suc at) c (x ∷ xs) h = ap (λ t. x ∷ t) (take-set_end at c xs (omega arith))

pub take-store_before :
    (n at : ℕ) (message cs : List ℕ) → n ≤ at → take n (store message at cs) ≡ take n message
take-store_before n at message [] h = refl
take-store_before n at message (c ∷ cs) h =
    take-store_before n (at + 1) (set message at c) cs (omega arith) ∙ take-set n at c message h

pub take-store :
    (n at : ℕ) (message cs : List ℕ)
    → n ≡ at + length cs
    → n ≤ length message
    → take n (store message at cs) ≡ take at message ++ cs
take-store n at message [] e h =
    let same : n ≡ at = omega arith in
    ap (λ n. take n message) same ∙ sym (append-nil (take at message))
take-store n at message (c ∷ cs) e h =
    let next : at + 1 ≡ suc at = omega arith in
    take-store n (at + 1) (set message at c) cs (omega arith)
      (omega (arith, length-set message at c))
    ∙ ap (λ m. take m (set message at c) ++ cs) next
    ∙ ap (λ t. t ++ cs) (take-set_end at c message (omega arith))
    ∙ append_assoc (take at message) (c ∷ []) cs

pub take-append :
    (n : ℕ) (xs ys : List ℕ) → length xs ≤ n → take n (xs ++ ys) ≡ xs ++ take (n - length xs) ys
take-append n [] ys h = ap (λ m. take m ys) (omega arith)
take-append zero (x ∷ xs) ys h = absurd (omega arith)
take-append (suc n) (x ∷ xs) ys h =
    let same : suc n - suc (length xs) ≡ n - length xs = omega arith in
    rw same (ap (λ t. x ∷ t) (take-append n xs ys (omega arith)))

pub take-min : (n : ℕ) (xs : List ℕ) → take (min (length xs) n) xs ≡ take n xs
take-min n xs = elim (Bool-cases (leb (length xs) n)) [
  | inl le ↦
      let short : min (length xs) n ≡ length xs = ground arith in
      rw (short, take_all (length xs) xs (omega arith), take_all n xs (ground arith)) refl
  | inr gt ↦ let long : min (length xs) n ≡ n = ground arith in rw (long) refl
]
