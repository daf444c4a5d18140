-- ===== src/Parser/Events.antt =====
-- The events that rapidjson::Reader sends to a handler. The reader is not modelled: it is a
-- parameter that gives the events of a text and whether the text is well formed.
use hft_demo.Common.{
  ℕ, Bool, true, false, ◌&&◌, List, [], ◌∷◌, ◌≡◌, refl, ap, sym, ◌∙◌, map, inl, inr, Bool-cases,
  ltb, u32_mod, if◌then◌else◌,
}
use hft_demo.Common.Int.{ℤ}

-- A call of a handler's method. No handler reads the value of a double.
pub data Event : Type 0 where
  null : Event
  bool : Bool → Event
  int : ℤ → Event
  uint : ℕ → Event
  int64 : ℤ → Event
  uint64 : ℕ → Event
  double : Event
  string : List ℕ → Event
  start_object : Event
  key : List ℕ → Event
  end_object : ℕ → Event
  start_array : Event
  end_array : ℕ → Event

-- The call for a whole number below 2^64: it is `Uint` where 32 bits are enough.
abbrev pub whole_number : ℕ → Event
whole_number n = if ltb n u32_mod then uint n else uint64 n

-- What the reader finds in a text: the calls that it makes, up to the end of the text or to its
-- first error, and whether it met no error.
abbrev pub Reader : Type 0
Reader = List ℕ → List Event × Bool

module _ {ℓ} {S : Type ℓ} (handle : S → Event → S × Bool) where
  -- The reader makes its calls in order and stops at the first that returns false.
  unfoldable pub feed : S → List Event → S × Bool
  feed s [] = (s, true)
  feed s (e ∷ es) =
      let (s', go_on) = handle s e in elim go_on [ true ↦ feed s' es | false ↦ (s', false) ]

  -- `reader.Parse(ms, handler)`: what the handler is left with, and the result.
  unfoldable pub parse : Reader → S → List ℕ → S × Bool
  unfolding feed
  parse reader s json =
      let (events, well_formed) = reader json in
      let (s', went_on) = feed s events in (s', went_on && well_formed)

  -- One event that the handler accepts.
  pub feed-step :
      (s : S) {s' : S} (e : Event) (es : List Event)
      → handle s e ≡ (s', true)
      → feed s (e ∷ es) ≡ feed s' es
  unfolding feed
  feed-step s e es h =
      ap
        (λ (r : S × Bool). elim r.1 as (λ _. S × Bool) [
          | true ↦ feed r.0 es
          | false ↦ (r.0, false)
        ])
        h

  -- One event that the handler refuses.
  pub feed-stop :
      (s : S) {s' : S} (e : Event) (es : List Event)
      → handle s e ≡ (s', false)
      → feed s (e ∷ es) ≡ (s', false)
  unfolding feed
  feed-stop s e es h =
      ap
        (λ (r : S × Bool). elim r.1 as (λ _. S × Bool) [
          | true ↦ feed r.0 es
          | false ↦ (r.0, false)
        ])
        h

  -- Events that the handler does not tell apart can stand for each other.
  pub feed-map :
      (f : Event → Event)
      → ((s : S) (e : Event) → handle s (f e) ≡ handle s e)
      → (s : S) (es : List Event) → feed s (map f es) ≡ feed s es
  unfolding feed
  feed-map f same s [] = refl
  feed-map f same s (e ∷ es) =
      let (s', ok) = handle s e in
      elim (Bool-cases ok) [
        | inl good ↦
            let accepts = ap (λ (b : Bool). (s', b)) good in
            feed-step s (f e) (map f es) (same s e ∙ accepts)
            ∙ feed-map f same s' es
            ∙ sym (feed-step s e es accepts)
        | inr bad ↦
            let refuses = ap (λ (b : Bool). (s', b)) bad in
            feed-stop s (f e) (map f es) (same s e ∙ refuses) ∙ sym (feed-stop s e es refuses)
      ]
