-- ===== src/Parser/Combined/Forward.antt =====
-- A combined message with a depth update inside is handled as the depth update on its own.
use hft_demo.Common.{
  ℕ, ◌-◌, ◌≡◌, refl, sym, ap, ◌∙◌, Bool, true, false, List, [], ◌∷◌, ◌++◌, Option, none, some, inl,
  inr, Bool-cases, arith, if◌then◌else◌, take,
}
use hft_demo.Parser.Fields.{is_depth_stream}
use hft_demo.Parser.Events.{
  Event, null, bool, int, uint, int64, uint64, double, string, start_object, key, end_object,
  start_array, end_array, feed, feed-step, feed-stop,
}
use hft_demo.Parser.Depth
use hft_demo.Parser.Depth.{DepthSax}
use hft_demo.Parser.Combined.Inside.{is_flat, all_flat, wrapped, outcome, fields-feed, inside-feed}
use hft_demo.Parser.Combined.{
  CombinedSax, reset, Released, release, forward, on_bool, on_inner, on_string, on_start_object,
  on_key, on_end_object, on_end_array, handle, stream_cap,
}

-- Inside the data of a depth stream.
abbrev inside : CombinedSax → CombinedSax
inside h = record h { in_data = true; data_is_depth = true; expect_data_object = false }

module _ (arrays : Bool) (h : CombinedSax) where
  inside-step :
      (d : DepthSax) (e : Event)
      → is_flat e ≡ true
      → handle arrays (record (inside h) { depth = d }) e
        ≡ (record (inside h) { depth = (Depth.handle d e).0 }, (Depth.handle d e).1)
  unfolding handle Depth.handle on_bool on_inner on_string on_key on_end_array forward
  inside-step d null f = refl
  inside-step d (bool b) f = refl
  inside-step d (int i) f = refl
  inside-step d (uint u) f = refl
  inside-step d (int64 i) f = refl
  inside-step d (uint64 u) f = refl
  inside-step d double f = refl
  inside-step d (string s) f = refl
  inside-step d (key s) f = refl
  inside-step d start_array f = refl
  inside-step d (end_array n) f = refl
  inside-step d start_object f = ground arith
  inside-step d (end_object n) f = ground arith

feed-nil : (s : DepthSax) → feed Depth.handle s [] ≡ (s, true)
unfolding feed
feed-nil s = refl

abbrev pub depth_outcome : DepthSax × Bool → Option Released
depth_outcome (d, accepted) = if accepted then some (Depth.release d, none) else none

module _ (arrays : Bool) (h : CombinedSax) (seen : h.have_stream ≡ true)
    (saw : h.saw_data ≡ true) where
  last-stop :
      (d : DepthSax) (n : ℕ)
      → (Depth.handle d (end_object n)).1 ≡ false
      → outcome (
          feed (handle arrays) (record (inside h) { depth = d }) (end_object n ∷ end_object 2 ∷ []))
        ≡ none
  unfolding handle on_end_object forward
  last-stop d n bad = ap outcome (
      feed-stop (handle arrays) (record (inside h) { depth = d })
        {s' = record (inside h) { depth = (Depth.handle d (end_object n)).0 }} (end_object n)
        (end_object 2 ∷ []) (ground arith))

  last_state : DepthSax → ℕ → CombinedSax
  last_state d n = record (inside h) {
    depth = (Depth.handle d (end_object n)).0;
    pending_data_release = true;
    pending_data_is_depth = true;
    in_data = false;
  }

  last-outer :
      (d : DepthSax) (n : ℕ)
      → handle arrays (last_state d n) (end_object 2)
        ≡ (record (last_state d n) { root_depth = h.root_depth - 1 }, true)
  unfolding handle on_end_object last_state
  last-outer d n = ground arith

  last-inner :
      (d : DepthSax) (n : ℕ)
      → (Depth.handle d (end_object n)).1 ≡ true
      → handle arrays (record (inside h) { depth = d }) (end_object n) ≡ (last_state d n, true)
  unfolding handle on_end_object last_state forward
  last-inner d n good = ground arith

  last-released :
      (d : DepthSax) (n : ℕ)
      → outcome (record (last_state d n) { root_depth = h.root_depth - 1 }, true)
        ≡ some (Depth.release (Depth.handle d (end_object n)).0, none)
  unfolding last_state release
  last-released d n = rw (seen, saw)

  last-go :
      (d : DepthSax) (n : ℕ)
      → (Depth.handle d (end_object n)).1 ≡ true
      → outcome (
          feed (handle arrays) (record (inside h) { depth = d }) (end_object n ∷ end_object 2 ∷ []))
        ≡ some (Depth.release (Depth.handle d (end_object n)).0, none)
  unfolding feed
  last-go d n good =
      ap outcome (
        feed-step (handle arrays) _ (end_object n) (end_object 2 ∷ []) (last-inner d n good)
        ∙ feed-step (handle arrays) (last_state d n) (end_object 2) [] (last-outer d n))
      ∙ last-released d n

  ends :
      (d : DepthSax) (n : ℕ)
      → outcome (
          feed (handle arrays) (record (inside h) { depth = d }) (end_object n ∷ end_object 2 ∷ []))
        ≡ depth_outcome (feed Depth.handle d (end_object n ∷ []))
  ends d n =
      let (d', ok) = Depth.handle d (end_object n) in
      elim (Bool-cases ok) [
        | inl good ↦
            last-go d n good
            ∙ sym (
                ap depth_outcome (
                  feed-step Depth.handle d (end_object n) [] (ap (λ (b : Bool). (d', b)) good)
                  ∙ feed-nil _))
        | inr bad ↦
            last-stop d n bad
            ∙ sym (
                ap depth_outcome
                  (feed-stop Depth.handle d (end_object n) [] (ap (λ (b : Bool). (d', b)) bad)))
      ]

start-data :
    (arrays : Bool) (h : CombinedSax)
    → h.expect_data_object ≡ true
    → h.have_stream ≡ true
    → is_depth_stream h.stream ≡ true
    → handle arrays h start_object ≡ (
      record (inside h) { saw_data = true; depth = (Depth.handle h.depth start_object).0 },
      (Depth.handle h.depth start_object).1,
    )
unfolding handle on_start_object forward
start-data arrays h expects has is = ground arith

-- A combined message on a depth stream has the outcome of its data object alone: what the depth
-- handler accepts and releases, given that no object is nested in the data.
pub combined_lem :
    (arrays : Bool) (h : CombinedSax) (stream : List ℕ) (es : List Event) (n : ℕ)
    → is_depth_stream (take stream_cap stream) ≡ true
    → all_flat es ≡ true
    → outcome (feed (handle arrays) (reset h) (wrapped stream es n))
      ≡ depth_outcome
          (feed Depth.handle (Depth.reset h.depth) (start_object ∷ (es ++ end_object n ∷ [])))
combined_lem arrays h stream es n is flat =
    let c : CombinedSax = record (reset h) {
      root_depth = 1;
      stream = take stream_cap stream;
      have_stream = true;
      expect_data_object = true;
    } in
    let d = Depth.reset h.depth in
    let inner : Depth.handle d start_object ≡ (record d { object_depth = 1 }, true) =
      unfold Depth.handle Depth.on_start_object in refl in
    ap outcome (
      fields-feed arrays h stream _
      ∙ feed-step (handle arrays) c start_object _ (
          start-data arrays c refl refl is
          ∙ ap (λ (r : DepthSax × Bool). (record (inside c) { saw_data = true; depth = r.0 }, r.1))
              inner))
    ∙ inside-feed (handle arrays) Depth.handle
        (λ x. record (inside c) { saw_data = true; depth = x }) depth_outcome
        (inside-step arrays (record c { saw_data = true })) (λ x. refl)
        (ends arrays (record c { saw_data = true }) refl refl) (record d { object_depth = 1 }) es n
        flat
    ∙ sym (ap depth_outcome (feed-step Depth.handle d start_object _ inner))
