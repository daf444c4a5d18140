-- ===== src/Parser/Calls/Event.antt =====
-- A message of the combined stream with a depth update, from the call of ParseEvent to its callbacks.
use hft_demo.Common.{
  ℕ, ◌≤◌, ◌≡◌, refl, ap, ◌∙◌, Bool, true, List, [], ◌∷◌, ◌++◌, append_assoc, none, some, map,
  length, take, arith,
}
use hft_demo.Common.Bytes.{codes}
use hft_demo.Market.{bid, ask}
use hft_demo.Parser.Fields.{is_depth_stream}
use hft_demo.Parser.Events.{
  Event, Reader, parse, feed, key, string, uint64, start_array, end_array, start_object, end_object,
}
use hft_demo.Parser.Depth
use hft_demo.Parser.Depth.{max_depth_levels_per_side}
use hft_demo.Parser.Depth.Invariant.{IsValid}
use hft_demo.Parser.Depth.Release.{batch}
use hft_demo.Parser.Rows.{RowText, rows_events, good_rows}
use hft_demo.Parser.Depth.Document.{Update, document, sent, document_lem}
use hft_demo.Parser.Combined
use hft_demo.Parser.Combined.{CombinedSax, stream_cap}
use hft_demo.Parser.Combined.Inside.{all_flat, wrapped, outcome}
use hft_demo.Parser.Combined.Forward.{depth_outcome, combined_lem}
use hft_demo.Parser.Calls.{parse_event}

flat-append :
    (xs ys : List Event) → all_flat xs ≡ true → all_flat ys ≡ true → all_flat (xs ++ ys) ≡ true
flat-append [] ys fx fy = fy
flat-append (x ∷ xs) ys fx fy = ground (arith, flat-append xs ys (ground arith) fy)

flat-rows : (rs : List RowText) → all_flat (rows_events rs) ≡ true
flat-rows [] = refl
flat-rows (r ∷ rs) = flat-rows rs

-- The events of a depth update between its braces.
abbrev pub body : Update → List Event
body u =
    key (codes "e")
    ∷ string (codes "depthUpdate")
    ∷ key (codes "E")
    ∷ uint64 u.event_time
    ∷ key (codes "s")
    ∷ string u.symbol_text
    ∷ key (codes "U")
    ∷ uint64 u.first_id
    ∷ key (codes "u")
    ∷ uint64 u.last_id
    ∷ key (codes "b")
    ∷ start_array
    ∷ (rows_events u.bid_rows
        ++ (end_array (length u.bid_rows)
            ∷ key (codes "a")
            ∷ start_array
            ∷ (rows_events u.ask_rows ++ (end_array (length u.ask_rows) ∷ []))))

body-flat : (u : Update) → all_flat (body u) ≡ true
body-flat u = flat-append (rows_events u.bid_rows) _ (flat-rows u.bid_rows) (
    flat-append (rows_events u.ask_rows) (end_array (length u.ask_rows) ∷ []) (flat-rows u.ask_rows)
      refl)

append_middle :
    (xs ys zs tail : List Event) (a b c : Event)
    → (xs ++ (a ∷ b ∷ c ∷ (ys ++ zs))) ++ tail ≡ xs ++ (a ∷ b ∷ c ∷ (ys ++ (zs ++ tail)))
append_middle xs ys zs tail a b c =
    append_assoc xs (a ∷ b ∷ c ∷ (ys ++ zs)) tail
    ∙ ap (λ (ts : List Event). xs ++ (a ∷ b ∷ c ∷ ts)) (append_assoc ys zs tail)

document-body : (u : Update) → start_object ∷ (body u ++ end_object 7 ∷ []) ≡ document u
document-body u =
    ap
      (λ (ts : List Event).
        start_object
        ∷ key (codes "e")
        ∷ string (codes "depthUpdate")
        ∷ key (codes "E")
        ∷ uint64 u.event_time
        ∷ key (codes "s")
        ∷ string u.symbol_text
        ∷ key (codes "U")
        ∷ uint64 u.first_id
        ∷ key (codes "u")
        ∷ uint64 u.last_id
        ∷ key (codes "b")
        ∷ start_array
        ∷ ts)
      (append_middle (rows_events u.bid_rows) (rows_events u.ask_rows)
        (end_array (length u.ask_rows) ∷ []) (end_object 7 ∷ []) _ _ _)

pub parse-outcome :
    (arrays : Bool) (reader : Reader) (h : CombinedSax) (json : List ℕ) {es : List Event}
    → reader json ≡ (es, true)
    → (parse_event arrays reader h json).1
      ≡ outcome (feed (Combined.handle arrays) (Combined.reset h) es)
unfolding parse_event parse
parse-outcome arrays reader h json {es} e = ground (arith, e)

-- Where the reader finds in a text a combined message on a depth stream, `ParseEvent` with a valid
-- depth handler passes on the batch of the good levels of the depth update in it, and no trade, given
-- that each side has at most as many good rows as the handler has places.
pub parse_event_lem :
    (arrays : Bool) (reader : Reader) (h : CombinedSax) (json stream : List ℕ) (u : Update)
    → IsValid h.depth
    → is_depth_stream (take stream_cap stream) ≡ true
    → reader json ≡ (wrapped stream (body u) 7, true)
    → length (good_rows u.bid_rows) ≤ max_depth_levels_per_side
    → length (good_rows u.ask_rows) ≤ max_depth_levels_per_side
    → (parse_event arrays reader h json).1
      ≡ some (
        batch (map (sent u bid) (good_rows u.bid_rows) ++ map (sent u ask) (good_rows u.ask_rows)),
        none,
      )
parse_event_lem arrays reader h json stream u v is reads bids_fit asks_fit =
    let (accepted, released) = document_lem h.depth u v bids_fit asks_fit in
    parse-outcome arrays reader h json reads
    ∙ combined_lem arrays h stream (body u) 7 is (body-flat u)
    ∙ ap (λ (es : List Event). depth_outcome (feed Depth.handle (Depth.reset h.depth) es))
        (document-body u)
    ∙ rw (accepted, released)
