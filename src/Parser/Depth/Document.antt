-- ===== src/Parser/Depth/Document.antt =====
-- A whole depth update, from its text fields to the updates that `Release` passes on.
use Prim.Native.String.{String}
use hft_demo.Common.{
  ℕ, ◌+◌, ◌≤◌, ◌≡◌, refl, ap, ap₂, ◌∙◌, Bool, true, false, List, [], ◌∷◌, ◌++◌, some, map, arith,
  length,
}
use hft_demo.Common.Bytes.{codes, bytes_eq}
use hft_demo.Market.{OrderBookUpdate, empty_update, BookSide, bid, ask}
use hft_demo.Parser.Fields.{symbol_from_string, event_time_to_microseconds}
use hft_demo.Parser.Events.{
  Event, string, uint64, start_object, key, end_object, start_array, end_array, feed, feed-step,
}
use hft_demo.Parser.Depth.{
  DepthSax, DepthPending, max_depth_levels_per_side, reset, handle, release, on_string,
  field_string, number, field_number, on_uint64, on_start_object, on_key, pending_of_key,
  on_end_object, on_start_array, start_side, on_end_array,
}
use hft_demo.Parser.Depth.Invariant.{IsValid}
use hft_demo.Parser.Depth.Release.{Level, bid_levels, ask_levels, update_of, batch, release-batch}
use hft_demo.Parser.Rows.{RowText, rows_events, good_rows}
use hft_demo.Parser.Depth.Rows.{push, pushes, scratch, rows-feed}
use hft_demo.Parser.Depth.Pushes.{pushes-ask_n, pushes-bids, pushes-asks}

-- A depth update as it is sent.
pub record Update : Type 0 where
  pub event_time : ℕ
  pub symbol_text : List ℕ
  pub first_id : ℕ
  pub last_id : ℕ
  pub bid_rows : List RowText
  pub ask_rows : List RowText

abbrev pub field : String → Event → List Event
field k e = key (codes k) ∷ e ∷ []

abbrev pub side_events : String → List RowText → List Event
side_events k rows = key (codes k) ∷ start_array ∷ rows_events rows

-- The events of its text, with its keys in the order of the exchange.
abbrev pub document : Update → List Event
document u =
    start_object
    ∷ key (codes "e")
    ∷ string (codes "depthUpdate")
    ∷ key (codes "E")
    ∷ uint64 u.event_time
    ∷ key (codes "s")
    ∷ string u.symbol_text
    ∷ key (codes "U")
    ∷ uint64 u.first_id
    ∷ key (codes "u")
    ∷ uint64 u.last_id
    ∷ key (codes "b")
    ∷ start_array
    ∷ (rows_events u.bid_rows
        ++ (end_array (length u.bid_rows)
            ∷ key (codes "a")
            ∷ start_array
            ∷ (rows_events u.ask_rows ++ (end_array (length u.ask_rows) ∷ end_object 7 ∷ []))))

-- The handler behind the fields, before the first row of the bids.
abbrev after_fields : DepthSax → Update → DepthSax
after_fields h u = record (reset h) {
  object_depth = 1;
  array_depth = 1;
  valid_event_type = true;
  event_timestamp_microseconds = event_time_to_microseconds u.event_time;
  first_update_id = u.first_id;
  last_update_id = u.last_id;
  symbol = symbol_from_string (some u.symbol_text);
  current_side_is_bid = true;
}

fields-feed :
    (h : DepthSax) (u : Update) (rest : List Event)
    → feed handle (reset h) (
        start_object
        ∷ key (codes "e")
        ∷ string (codes "depthUpdate")
        ∷ key (codes "E")
        ∷ uint64 u.event_time
        ∷ key (codes "s")
        ∷ string u.symbol_text
        ∷ key (codes "U")
        ∷ uint64 u.first_id
        ∷ key (codes "u")
        ∷ uint64 u.last_id
        ∷ key (codes "b")
        ∷ start_array
        ∷ rest)
      ≡ feed handle (after_fields h u) rest
unfolding feed handle on_start_object on_key pending_of_key on_string field_string on_uint64 number
    field_number on_start_array start_side bytes_eq
fields-feed h u rest = refl

-- The members of `h` with the levels of `g`.
abbrev with_levels : DepthSax → DepthSax → DepthSax
with_levels h g = record h {
  bid_n = g.bid_n;
  ask_n = g.ask_n;
  bid_prices = g.bid_prices;
  bid_qtys = g.bid_qtys;
  ask_prices = g.ask_prices;
  ask_qtys = g.ask_qtys;
}

pushes-frame : (h : DepthSax) (ls : List Level) → pushes h ls ≡ with_levels h (pushes h ls)
pushes-frame h [] = refl
pushes-frame h (l ∷ ls) = pushes-frame (push h l) ls

-- The handler between the bids and the asks.
abbrev turned : DepthSax → DepthSax
turned h = record h {
  array_depth = 1;
  current_side_is_bid = false;
  stop_side_levels = false;
  pending = DepthPending.none;
}

turn-feed :
    (h : DepthSax) (n : ℕ) (rest : List Event)
    → h.object_depth ≡ 1
    → h.array_depth ≡ 1
    → feed handle h (end_array n ∷ key (codes "a") ∷ start_array ∷ rest)
      ≡ feed handle (turned h) rest
unfolding handle on_end_array on_key pending_of_key on_start_array start_side bytes_eq
turn-feed h n rest o a =
    feed-step handle h {s' = record h { array_depth = 0 }} (end_array n) _ (ground arith)
    ∙ feed-step handle _ {s' = record h { array_depth = 0; pending = DepthPending.asks }}
        (key (codes "a")) _ (ground arith)
    ∙ feed-step handle _ start_array _ (ground arith)

finish-feed :
    (h : DepthSax) (n : ℕ)
    → h.object_depth ≡ 1
    → h.array_depth ≡ 1
    → h.valid_event_type ≡ true
    → feed handle h (end_array n ∷ end_object 7 ∷ [])
      ≡ (record h { array_depth = 0; object_depth = 0 }, true)
unfolding feed handle on_end_array on_end_object
finish-feed h n o a e =
    feed-step handle h {s' = record h { array_depth = 0 }} (end_array n) (end_object 7 ∷ [])
      (ground arith)
    ∙ feed-step handle (record h { array_depth = 0 })
        {s' = record h { array_depth = 0; object_depth = 0 }} (end_object 7) [] (ground arith)

-- The update that is to be sent for a level.
abbrev pub sent : Update → BookSide → Level → OrderBookUpdate
sent u side l = record empty_update {
  event_timestamp_microseconds = event_time_to_microseconds u.event_time;
  first_update_id = u.first_id;
  last_update_id = u.last_id;
  symbol = symbol_from_string (some u.symbol_text);
  side = side;
  price = l.0;
  quantity = l.1;
}

document-feed :
    (h : DepthSax) (u : Update)
    → IsValid h
    → length (good_rows u.bid_rows) ≤ max_depth_levels_per_side
    → length (good_rows u.ask_rows) ≤ max_depth_levels_per_side
    → (s : DepthSax) × (feed handle (reset h) (document u) ≡ (s, true))
      × (bid_levels s ≡ good_rows u.bid_rows)
      × (ask_levels s ≡ good_rows u.ask_rows)
      × ((side : BookSide) (l : Level) → update_of s side l ≡ sent u side l)
document-feed h u v bids_fit asks_fit =
    let hb = after_fields h u in
    let bids = good_rows u.bid_rows in
    let asks = good_rows u.ask_rows in
    let last = end_array (length u.ask_rows) ∷ end_object 7 ∷ [] in
    let (y, j, stop, eb) =
      rows-feed hb [] 0 refl u.bid_rows
        (end_array (length u.bid_rows)
          ∷ key (codes "a")
          ∷ start_array
          ∷ (rows_events u.ask_rows ++ last))
        (omega (arith, bids_fit)) in
    let g = pushes hb bids in
    let ha = turned (with_levels (scratch hb y j stop) g) in
    let (bids_in, no_asks, whole) =
      pushes-bids hb bids (ground arith) refl (omega (arith, bids_fit)) in
    let room : g.ask_n + length asks ≤ max_depth_levels_per_side =
      omega (arith, asks_fit, pushes-ask_n hb bids refl) in
    let (y', j', stop', ea) = rows-feed ha y j refl u.ask_rows last room in
    let (asks_in, bids_kept, whole') = pushes-asks ha asks (ground (arith, whole)) refl room in
    let fed =
      fields-feed h u _
      ∙ eb
      ∙ ap
          (λ (x : DepthSax). feed handle (scratch x y j stop) (
            end_array (length u.bid_rows)
            ∷ key (codes "a")
            ∷ start_array
            ∷ (rows_events u.ask_rows ++ last)))
          (pushes-frame hb bids)
      ∙ turn-feed (with_levels (scratch hb y j stop) g) _ _ refl refl
      ∙ ea
      ∙ ap (λ (x : DepthSax). feed handle (scratch x y' j' stop') last) (pushes-frame ha asks)
      ∙ finish-feed (with_levels (scratch ha y' j' stop') (pushes ha asks)) _ refl refl refl in
    (
      _,
      fed,
      bids_kept ∙ bids_in,
      asks_in ∙ ap (λ (ls : List Level). ls ++ asks) no_asks,
      λ side l. refl,
    )

map-update_of :
    (s : DepthSax) (u : Update) (side : BookSide)
    → ((l : Level) → update_of s side l ≡ sent u side l)
    → (ls : List Level) → map (update_of s side) ls ≡ map (sent u side) ls
map-update_of s u side same [] = refl
map-update_of s u side same (l ∷ ls) = ap₂ ◌∷◌ (same l) (map-update_of s u side same ls)

-- A valid handler accepts the events of a depth update, and `Release` then passes on one batch: the
-- levels of the leading good rows of the bids and then of the asks, with the fields of the update,
-- given that each side has at most as many good rows as the handler has places.
pub document_lem :
    (h : DepthSax) (u : Update)
    → IsValid h
    → length (good_rows u.bid_rows) ≤ max_depth_levels_per_side
    → length (good_rows u.ask_rows) ≤ max_depth_levels_per_side
    → ((feed handle (reset h) (document u)).1 ≡ true)
      × (release (feed handle (reset h) (document u)).0
          ≡ batch
              (map (sent u bid) (good_rows u.bid_rows) ++ map (sent u ask) (good_rows u.ask_rows)))
document_lem h u v bids_fit asks_fit =
    let (s, fed, bids, asks, same) = document-feed h u v bids_fit asks_fit in
    (
      ap (λ (r : DepthSax × Bool). r.1) fed,
      ap (λ (r : DepthSax × Bool). release r.0) fed
          ∙ release-batch s
          ∙ ap₂ (λ (bs as_ : List OrderBookUpdate). batch (bs ++ as_))
              (map-update_of s u bid (same bid) (bid_levels s) ∙ ap (map (sent u bid)) bids)
              (map-update_of s u ask (same ask) (ask_levels s) ∙ ap (map (sent u ask)) asks),
    )
