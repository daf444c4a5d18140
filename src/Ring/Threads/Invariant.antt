-- ===== src/Ring/Threads/Invariant.antt =====
-- What the shared memory and the local variables of both threads say of each other as long as the
-- consumer has not been disabled, kept by every step.
use hft_demo.Common.{
  ℕ, suc, ◌^◌, ◌≤◌, ◌≡◌, ◌⊎◌, refl, sym, subst, ap, ◌∙◌, true, false, List, [], ◌∷◌, ◌++◌,
  append_assoc, arith, ◌==◌, length-set, get_or, set, get_or-set_self, get_or-set_ne, u32_mod,
}
use hft_demo.Ring.{Ring, increment}
use hft_demo.Ring.Slots.{next, slots, increment_lem, slots-set-ahead, slots-snoc}
use hft_demo.Ring.Queue.{IsValid, count}
use hft_demo.Ring.Threads.{
  Producer, idle, called, head_loaded, lagging, checked, stored, Consumer, resting, enabled,
  tail_loaded, both_loaded, copied, System, Step, call, load_head, find_full, disable, find_room,
  store_place, store_head, find_active, find_disabled, load_tail, see_head, find_empty, copy,
  store_tail,
}

module _ {A : Type 0} (n : ℕ) (d : A) where
  abbrev pub Writes : Ring A → Producer A → Type 0
  Writes r idle = Unit
  Writes r (called x) = Unit
  Writes r (head_loaded x h) = h ≡ next n r.head
  Writes r (lagging x h) = h ≡ next n r.head
  Writes r (checked x h) = (h ≡ next n r.head) × ((h == r.tail) ≡ false)
  Writes r (stored x h) = (h ≡ next n r.head) × ((h == r.tail) ≡ false) × (get_or r.places h d ≡ x)

  abbrev pub Reads : Ring A → Consumer A → Type 0
  Reads r resting = Unit
  Reads r enabled = Unit
  Reads r (tail_loaded t) = t ≡ r.tail
  Reads r (both_loaded t h) = (t ≡ r.tail) × (((t == h) ≡ true) ⊎ ((r.tail == r.head) ≡ false))
  Reads r (copied t x) =
      (t ≡ next n r.tail) × ((r.tail == r.head) ≡ false) × (get_or r.places t d ≡ x)

  abbrev pub unread : Ring A → List A
  unread r = slots n d r.places r.tail (count n r)

  pub record Inv (s : System A) : Type 0 where
    pub valid : IsValid n s.ring
    pub writes : Writes s.ring s.producer
    pub reads : Reads s.ring s.consumer
    pub fifo : s.written ≡ s.received ++ unread s.ring

-- What a store leaves true of the other thread, and of the unread elements.
module _ {A : Type 0} (n : ℕ) (d : A) (r : Ring A) (v : IsValid n r) where
  place-Reads :
      (c : Consumer A) (x : A) {h : ℕ}
      → h ≡ next n r.head
      → Reads n d r c
      → Reads n d (record r { places = set r.places h x }) c
  place-Reads resting x e f = f
  place-Reads enabled x e f = f
  place-Reads (tail_loaded t) x e f = f
  place-Reads (both_loaded t g) x e f = f
  place-Reads (copied t y) x {h} e (at, apart, held) = (
    at,
    apart,
    get_or-set_ne r.places {i = h} {j = t} x d (ground (arith, v.head_in, v.tail_in)) ∙ held,
  )

  place-unread :
      (x : A) {h : ℕ}
      → h ≡ next n r.head
      → (h == r.tail) ≡ false
      → unread n d (record r { places = set r.places h x }) ≡ unread n d r
  place-unread x {h} e room =
      slots-set-ahead n d r.places r.tail (count n r) h x v.tail_in (ground (arith, v.head_in))
        (ground (arith, v.head_in, v.tail_in))

  head-Reads :
      (c : Consumer A) (h : ℕ)
      → (h == r.tail) ≡ false
      → Reads n d r c
      → Reads n d (record r { head = h }) c
  head-Reads resting h room f = f
  head-Reads enabled h room f = f
  head-Reads (tail_loaded t) h room f = f
  head-Reads (both_loaded t g) h room f = ground arith
  head-Reads (copied t y) h room f = ground arith

  head-unread :
      {h : ℕ}
      → h ≡ next n r.head
      → (h == r.tail) ≡ false
      → unread n d (record r { head = h }) ≡ unread n d r ++ get_or r.places h d ∷ []
  head-unread {h} e room =
      let longer : count n (record r { head = h }) ≡ suc (count n r) =
        ground (arith, v.head_in, v.tail_in) in
      rw longer (
        slots-snoc n d r.places r.tail (count n r) h v.tail_in (ground (arith, v.head_in))
          (ground (arith, v.head_in, v.tail_in)))

  tail-Writes :
      (p : Producer A)
      → (r.tail == r.head) ≡ false
      → Writes n d r p
      → Writes n d (record r { tail = next n r.tail }) p
  tail-Writes idle apart f = f
  tail-Writes (called x) apart f = f
  tail-Writes (head_loaded x h) apart f = f
  tail-Writes (lagging x h) apart f = f
  tail-Writes (checked x h) apart f = ground (arith, v.head_in, v.tail_in)
  tail-Writes (stored x h) apart f = ground (arith, v.head_in, v.tail_in)

  tail-unread :
      (r.tail == r.head) ≡ false
      → unread n d r
        ≡ get_or r.places (next n r.tail) d ∷ unread n d (record r { tail = next n r.tail })
  tail-unread apart =
      let longer : count n r ≡ suc (count n (record r { tail = next n r.tail })) =
        ground (arith, v.head_in, v.tail_in) in
      rw longer

module _ {A : Type 0} (k : ℕ) (small : 2 ^ k ≤ u32_mod) (d : A) {s : System A}
    (inv : Inv (2 ^ k) d s) where
  Writes-at : {p : Producer A} → s.producer ≡ p → Writes (2 ^ k) d s.ring p
  Writes-at e = subst (λ (p : Producer A). Writes (2 ^ k) d s.ring p) e inv.writes

  Reads-at : {c : Consumer A} → s.consumer ≡ c → Reads (2 ^ k) d s.ring c
  Reads-at e = subst (λ (c : Consumer A). Reads (2 ^ k) d s.ring c) e inv.reads

  -- A step of the producer that stores nothing, and one of the consumer.
  producer-Inv :
      (p : Producer A) → Writes (2 ^ k) d s.ring p → Inv (2 ^ k) d (record s { producer = p })
  producer-Inv p f = record { valid = inv.valid; writes = f; reads = inv.reads; fifo = inv.fifo }

  consumer-Inv :
      (c : Consumer A) → Reads (2 ^ k) d s.ring c → Inv (2 ^ k) d (record s { consumer = c })
  consumer-Inv c f = record { valid = inv.valid; writes = inv.writes; reads = f; fifo = inv.fifo }

  store_place-Inv :
      {x : A} {h : ℕ}
      → s.producer ≡ checked x h
      → Inv (2 ^ k) d (record s {
        ring = record (s.ring) { places = set s.ring.places h x };
        producer = stored x h;
      })
  store_place-Inv {x} {h} e =
      let (at, room) = Writes-at e in
      record {
        valid = record {
          whole = length-set s.ring.places h x ∙ inv.valid.whole;
          head_in = inv.valid.head_in;
          tail_in = inv.valid.tail_in;
        };
        writes = (
          at,
          room,
          get_or-set_self s.ring.places h x d (ground (arith, inv.valid.whole, inv.valid.head_in)),
        );
        reads = place-Reads (2 ^ k) d s.ring inv.valid s.consumer x at inv.reads;
        fifo =
            inv.fifo
            ∙ ap (λ us. s.received ++ us) (sym (place-unread (2 ^ k) d s.ring inv.valid x at room));
      }

  store_head-Inv :
      {x : A} {h : ℕ}
      → s.producer ≡ stored x h
      → Inv (2 ^ k) d (record s {
        ring = record (s.ring) { head = h };
        producer = idle;
        written = s.written ++ x ∷ [];
      })
  store_head-Inv {x} {h} e =
      let (at, room, held) = Writes-at e in
      record {
        valid = record {
          whole = inv.valid.whole;
          head_in = ground (arith, inv.valid.head_in);
          tail_in = inv.valid.tail_in;
        };
        writes = tt;
        reads = head-Reads (2 ^ k) d s.ring inv.valid s.consumer h room inv.reads;
        fifo =
            ap (λ ws. ws ++ x ∷ []) inv.fifo
            ∙ append_assoc s.received (unread (2 ^ k) d s.ring) (x ∷ [])
            ∙ ap (λ (y : A). s.received ++ (unread (2 ^ k) d s.ring ++ y ∷ [])) (sym held)
            ∙ ap (λ us. s.received ++ us) (sym (head-unread (2 ^ k) d s.ring inv.valid at room));
      }

  store_tail-Inv :
      {t : ℕ} {x : A}
      → s.consumer ≡ copied t x
      → Inv (2 ^ k) d (record s {
        ring = record (s.ring) { tail = t };
        consumer = resting;
        received = s.received ++ x ∷ [];
      })
  store_tail-Inv {t} {x} e =
      let (at, apart, held) = Reads-at e in
      rw at (record {
        valid = record {
          whole = inv.valid.whole;
          head_in = inv.valid.head_in;
          tail_in = ground (arith, inv.valid.tail_in);
        };
        writes = tail-Writes (2 ^ k) d s.ring inv.valid s.producer apart inv.writes;
        reads = tt;
        fifo =
            inv.fifo
            ∙ ap (λ us. s.received ++ us) (tail-unread (2 ^ k) d s.ring inv.valid apart)
            ∙ ap
                (λ (y : A).
                  s.received
                  ++ y ∷ unread (2 ^ k) d (record (s.ring) { tail = next (2 ^ k) s.ring.tail }))
                (ap (λ (u : ℕ). get_or s.ring.places u d) (sym at) ∙ held)
            ∙ sym (
                append_assoc s.received (x ∷ [])
                  (unread (2 ^ k) d (record (s.ring) { tail = next (2 ^ k) s.ring.tail })));
      })

  -- Every step after which the consumer is active keeps the invariant.
  pub Step-Inv :
      {t : System A} → Step (2 ^ k) d s t → t.ring.is_active_consumer ≡ true → Inv (2 ^ k) d t
  Step-Inv (call x e) on = producer-Inv (called x) tt
  Step-Inv (load_head e) on = producer-Inv _ (increment_lem k s.ring.head inv.valid.head_in small)
  Step-Inv (find_full {x} {h} e full) on = producer-Inv (lagging x h) (Writes-at e)
  Step-Inv (disable e) on = cc (on)
  Step-Inv (find_room {x} {h} e room) on = producer-Inv (checked x h) (Writes-at e, room)
  Step-Inv (store_place e) on = store_place-Inv e
  Step-Inv (store_head e) on = store_head-Inv e
  Step-Inv (find_active e _) on = consumer-Inv enabled tt
  Step-Inv (find_disabled e _) on = inv
  Step-Inv (load_tail e) on = consumer-Inv _ refl
  Step-Inv (see_head {t} e) on =
      consumer-Inv (both_loaded t s.ring.head) (Reads-at e, ground (arith, Reads-at e))
  Step-Inv (find_empty e _) on = consumer-Inv resting tt
  Step-Inv (copy {t} {h} e apart) on =
      let (at, seen_apart) = Reads-at e in
      consumer-Inv _ (
        ap (increment (2 ^ k)) at ∙ increment_lem k s.ring.tail inv.valid.tail_in small,
        ground arith,
        refl,
      )
  Step-Inv (store_tail e) on = store_tail-Inv e
