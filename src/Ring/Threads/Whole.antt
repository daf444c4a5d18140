-- ===== src/Ring/Threads/Whole.antt =====
-- `write` and `read`, each as the steps of one thread with none of the other's in between.
use hft_demo.Common.{
  ℕ, ◌≡◌, inl, inr, refl, sym, subst, Bool, true, false, List, [], ◌∷◌, ◌++◌, Bool-cases, arith,
  ◌==◌, if◌then◌else◌, get_or, set,
}
use hft_demo.Ring.{
  Ring, ReadResult, success, buffer_is_empty, consumer_is_disabled, increment, write, read,
}
use hft_demo.Ring.Threads.{
  idle, resting, both_loaded, System, Steps, here, later, call, load_head, find_full, disable,
  find_room, store_place, store_head, find_active, find_disabled, load_tail, see_head, find_empty,
  copy, store_tail,
}

-- A system with both threads at rest.
abbrev pub at_rest : {A : Type 0} → Ring A → (written received : List A) → System A
at_rest r ws rs = record {
  ring = r;
  producer = idle;
  consumer = resting;
  written = ws;
  received = rs;
}

-- What a read adds to the elements received.
abbrev pub gained : {A : Type 0} → List A → ReadResult → A → List A
gained rs success x = rs ++ x ∷ []
gained rs buffer_is_empty x = rs
gained rs consumer_is_disabled x = rs

module _ {A : Type 0} (n : ℕ) (d : A) (r : Ring A) (ws rs : List A) where
  -- The ring behind a `Write` that finds it full, or not.
  abbrev behind : Bool → A → Ring A
  behind full x = record r {
    is_active_consumer = if full then false else r.is_active_consumer;
    places = set r.places (increment n r.head) x;
    head = increment n r.head;
  }

  write-behind :
      (x : A) {full : Bool} → (increment n r.head == r.tail) ≡ full → write n r x ≡ behind full x
  unfolding write
  write-behind x e = rw e

  write-Steps : (x : A) → Steps n d (at_rest r ws rs) (at_rest (write n r x) (ws ++ x ∷ []) rs)
  write-Steps x =
      let loaded = later (later here (call x refl)) (load_head refl) in
      elim (Bool-cases (increment n r.head == r.tail)) [
        | inl full ↦
            subst (λ (q : Ring A). Steps n d (at_rest r ws rs) (at_rest q (ws ++ x ∷ []) rs))
              (sym (write-behind x full))
              (later
                (later (later (later loaded (find_full refl full)) (disable refl))
                  (store_place refl))
                (store_head refl))
        | inr room ↦
            subst (λ (q : Ring A). Steps n d (at_rest r ws rs) (at_rest q (ws ++ x ∷ []) rs))
              (sym (write-behind x room))
              (later (later (later loaded (find_room refl room)) (store_place refl))
                (store_head refl))
      ]

  -- The system behind a `Read` that returned `t`.
  abbrev pub behind_read : Ring A × ReadResult × A → System A
  behind_read (q, result, x) = at_rest q ws (gained rs result x)

  abbrev ReadTo : Ring A × ReadResult × A → Type 0
  ReadTo t = Steps n d (at_rest r ws rs) (behind_read t)

  read-by : {t : Ring A × ReadResult × A} → read n r d ≡ t → ReadTo t → ReadTo (read n r d)
  read-by e steps = subst ReadTo (sym e) steps

  seen_both :
      r.is_active_consumer ≡ true
      → Steps n d
          (at_rest r ws rs)
          (record (at_rest r ws rs) { consumer = both_loaded r.tail r.head })
  seen_both on = later (later (later here (find_active refl on)) (load_tail refl)) (see_head refl)

  read_steps : ReadTo (read n r d)
  unfolding read
  read_steps = elim (Bool-cases r.is_active_consumer) [
    | inr off ↦
        read-by {t = (r, consumer_is_disabled, d)} (ground arith)
          (later here (find_disabled refl off))
    | inl on ↦ elim (Bool-cases (r.tail == r.head)) [
      | inl same ↦
          read-by {t = (r, buffer_is_empty, d)} (ground arith)
            (later (seen_both on) (find_empty refl same))
      | inr apart ↦
          read-by
            {t = (
              record r { tail = increment n r.tail },
              success,
              get_or r.places (increment n r.tail) d,
            )}
            (ground arith) (later (later (seen_both on) (copy refl apart)) (store_tail refl))
    ]
  ]

  -- The steps of one thread alone, from its start of an operation to its end, do what the operation
  -- does as one: `Write` of any element, and `Read` on each of its results.
  pub whole-Steps :
      (x : A)
      → Steps n d (at_rest r ws rs) (at_rest (write n r x) (ws ++ x ∷ []) rs)
        × Steps n d (at_rest r ws rs) (behind_read (read n r d))
  whole-Steps x = (write-Steps x, read_steps)
