-- ===== src/Parser/Combined/Inside.antt =====
-- The wrapper of a combined message, and how the events of its data object are passed on.
use hft_demo.Common.{
  ℕ, ◌≡◌, refl, sym, ap, ◌∙◌, Bool, true, false, ◌&&◌, List, [], ◌∷◌, ◌++◌, Option, none, some, inl,
  inr, Bool-cases, arith, if◌then◌else◌, take,
}
use hft_demo.Common.Bytes.{codes, bytes_eq}
use hft_demo.Parser.Events.{
  Event, string, start_object, key, end_object, feed, feed-step, feed-stop,
}
use hft_demo.Parser.Combined.{
  CombinedSax, reset, Released, release, on_string, on_start_object, on_key, handle, stream_cap,
}

-- An event inside an object without objects in it.
abbrev pub is_flat : Event → Bool
is_flat start_object = false
is_flat (end_object n) = false
is_flat _ = true

abbrev pub all_flat : List Event → Bool
all_flat [] = true
all_flat (e ∷ es) = is_flat e && all_flat es

-- The wrapper around the events of a data object.
abbrev pub wrapped : List ℕ → List Event → (n : ℕ) → List Event
wrapped stream es n =
    start_object
    ∷ key (codes "stream")
    ∷ string stream
    ∷ key (codes "data")
    ∷ start_object
    ∷ (es ++ end_object n ∷ end_object 2 ∷ [])

-- What the callbacks get, if the text is accepted with a stream and data in it.
abbrev pub outcome : CombinedSax × Bool → Option Released
outcome (c, accepted) =
    if accepted && (c.have_stream && c.saw_data) then some (release c).1 else none

-- The wrapper's fields, up to the data object.
pub fields-feed :
    (arrays : Bool) (h : CombinedSax) (stream : List ℕ) (rest : List Event)
    → feed
        (handle arrays)
        (reset h)
        (start_object ∷ key (codes "stream") ∷ string stream ∷ key (codes "data") ∷ rest)
      ≡ feed
          (handle arrays)
          (record (reset h) {
            root_depth = 1;
            stream = take stream_cap stream;
            have_stream = true;
            expect_data_object = true;
          })
          rest
unfolding feed handle on_start_object on_key on_string bytes_eq
fields-feed arrays h stream rest = refl

-- A handler that passes the events inside the data on to an inner one, up to its end.
module _ {D : Type 0} (outer : CombinedSax → Event → CombinedSax × Bool)
    (inner : D → Event → D × Bool) (put : D → CombinedSax) (given : D × Bool → Option Released)
    (step : (d : D) (e : Event)
      → is_flat e ≡ true
      → outer (put d) e ≡ (put (inner d e).0, (inner d e).1))
    (refused : (d : D) → given (d, false) ≡ none)
    (last : (d : D) (n : ℕ)
      → outcome (feed outer (put d) (end_object n ∷ end_object 2 ∷ []))
        ≡ given (feed inner d (end_object n ∷ []))) where
  pub inside-feed :
      (d : D) (es : List Event) (n : ℕ)
      → all_flat es ≡ true
      → outcome (feed outer (put d) (es ++ end_object n ∷ end_object 2 ∷ []))
        ≡ given (feed inner d (es ++ end_object n ∷ []))
  inside-feed d [] n flat = last d n
  inside-feed d (e ∷ es) n flat =
      let here : is_flat e ≡ true = ground arith in
      let (d', ok) = inner d e in
      elim (Bool-cases ok) [
        | inl good ↦
            ap outcome
              (feed-step outer (put d) e _ (step d e here ∙ ap (λ (b : Bool). (put d', b)) good))
            ∙ inside-feed d' es n (ground arith)
            ∙ sym (ap given (feed-step inner d e _ (ap (λ (b : Bool). (d', b)) good)))
        | inr bad ↦
            ap outcome
              (feed-stop outer (put d) e _ (step d e here ∙ ap (λ (b : Bool). (put d', b)) bad))
            ∙ sym (ap given (feed-stop inner d e _ (ap (λ (b : Bool). (d', b)) bad)) ∙ refused d')
      ]
