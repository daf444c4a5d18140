-- ===== src/Parser/Trade/Accepts.antt =====
-- A whole trade, from its text fields to the Trade that `Release` passes on.
use hft_demo.Common.{
  ℕ, ◌≡◌, refl, ap, ◌∙◌, Bool, true, List, ◌++◌, Bool-cases, ltb, u32_mod, [], ◌∷◌, Option, none,
  some, inl, inr, Option-cases, if◌then◌else◌,
}
use hft_demo.Common.Bytes.{codes, bytes_eq}
use hft_demo.Market.{Trade, empty_trade, price_shift, quantity_shift}
use hft_demo.Parser.Fields.{symbol_from_string, event_time_to_microseconds}
use hft_demo.Parser.Decimal.{parse_fixed_decimal_string}
use hft_demo.Parser.Events.{
  Event, null, bool, int, uint, int64, uint64, double, string, start_object, key, end_object,
  start_array, end_array, whole_number, feed, feed-step, feed-stop, feed-map,
}
use hft_demo.Parser.Trade.{
  TradeSax, TradePending, reset, release, handle, on_bool, price_string, quantity_string, on_string,
  field_number, number, on_uint64, on_start_object, pending_of_key, on_key, on_end_object,
}

-- A trade as it is sent, with its nine members in the order of the exchange.
pub record Message : Type 0 where
  pub event_time : ℕ
  pub symbol_text : List ℕ
  pub trade_id : ℕ
  pub price_text : List ℕ
  pub quantity_text : List ℕ
  pub trade_time : ℕ
  pub buyer_maker : Bool

-- The events between its braces.
abbrev pub trade_body : Message → List Event
trade_body m =
    key (codes "e")
    ∷ string (codes "trade")
    ∷ key (codes "E")
    ∷ whole_number m.event_time
    ∷ key (codes "s")
    ∷ string m.symbol_text
    ∷ key (codes "t")
    ∷ whole_number m.trade_id
    ∷ key (codes "p")
    ∷ string m.price_text
    ∷ key (codes "q")
    ∷ string m.quantity_text
    ∷ key (codes "T")
    ∷ whole_number m.trade_time
    ∷ key (codes "m")
    ∷ bool m.buyer_maker
    ∷ key (codes "M")
    ∷ bool true
    ∷ []

abbrev pub document : Message → List Event
document m = start_object ∷ (trade_body m ++ end_object 9 ∷ [])

-- The same with every number as a call of `Uint64`.
abbrev wide : Message → List Event
wide m =
    start_object
    ∷ key (codes "e")
    ∷ string (codes "trade")
    ∷ key (codes "E")
    ∷ uint64 m.event_time
    ∷ key (codes "s")
    ∷ string m.symbol_text
    ∷ key (codes "t")
    ∷ uint64 m.trade_id
    ∷ key (codes "p")
    ∷ string m.price_text
    ∷ key (codes "q")
    ∷ string m.quantity_text
    ∷ key (codes "T")
    ∷ uint64 m.trade_time
    ∷ key (codes "m")
    ∷ bool m.buyer_maker
    ∷ key (codes "M")
    ∷ bool true
    ∷ end_object 9
    ∷ []

-- The call in `document` for one in `wide`.
abbrev as_read : Event → Event
as_read (uint64 n) = whole_number n
as_read e = e

handle-as_read :
    (arrays : Bool) (h : TradeSax) (e : Event) → handle arrays h (as_read e) ≡ handle arrays h e
unfolding handle
handle-as_read arrays h (uint64 n) = elim (Bool-cases (ltb n u32_mod)) [
  | inl small ↦ rw (small) refl
  | inr large ↦ rw (large) refl
]
handle-as_read arrays h null = refl
handle-as_read arrays h (bool b) = refl
handle-as_read arrays h (int i) = refl
handle-as_read arrays h (uint u) = refl
handle-as_read arrays h (int64 i) = refl
handle-as_read arrays h double = refl
handle-as_read arrays h (string s) = refl
handle-as_read arrays h start_object = refl
handle-as_read arrays h (key s) = refl
handle-as_read arrays h (end_object n) = refl
handle-as_read arrays h start_array = refl
handle-as_read arrays h (end_array n) = refl

-- The handler does not tell a document from its `wide` form.
document-wide :
    (arrays : Bool) (h : TradeSax) (m : Message)
    → feed (handle arrays) h (document m) ≡ feed (handle arrays) h (wide m)
document-wide arrays h m = feed-map (handle arrays) as_read (handle-as_read arrays) h (wide m)

-- The trade with these prices, if both texts are good.
abbrev pub with_amounts : Message → Option ℕ → Option ℕ → Option Trade
with_amounts m (some p) (some q) = some (record empty_trade {
  event_timestamp_microseconds = event_time_to_microseconds m.event_time;
  price = p;
  quantity = q;
  symbol = symbol_from_string (some m.symbol_text);
  is_buyer_maker = m.buyer_maker;
})
with_amounts m (some p) none = none
with_amounts m none q = none

-- What the callback gets: nothing unless the handler accepted the whole text.
abbrev pub outcome : TradeSax × Bool → Option Trade
outcome (h, accepted) = if accepted then some (release h) else none

-- The handler at the price, and at the quantity.
abbrev at_price : TradeSax → Message → TradeSax
at_price h m = record (reset h) {
  object_depth = 1;
  pending = TradePending.price;
  valid_event_type = true;
  out = record empty_trade {
    event_timestamp_microseconds = event_time_to_microseconds m.event_time;
    symbol = symbol_from_string (some m.symbol_text);
  };
}

abbrev at_quantity : TradeSax → Message → ℕ → TradeSax
at_quantity h m p = record (at_price h m) {
  pending = TradePending.quantity;
  have_price = true;
  out = record ((at_price h m).out) { price = p };
}

abbrev behind_quantity : Message → List Event
behind_quantity m =
    key (codes "T")
    ∷ uint64 m.trade_time
    ∷ key (codes "m")
    ∷ bool m.buyer_maker
    ∷ key (codes "M")
    ∷ bool true
    ∷ end_object 9
    ∷ []

module _ (arrays : Bool) (h : TradeSax) (m : Message) where
  price-bad :
      parse_fixed_decimal_string m.price_text price_shift ≡ none
      → outcome (feed (handle arrays) (reset h) (wide m)) ≡ none
  unfolding feed handle on_start_object on_key pending_of_key on_string on_uint64 number
      field_number bytes_eq price_string
  price-bad e = ap outcome (
      feed-stop (handle arrays) (at_price h m) (string m.price_text)
        (key (codes "q") ∷ string m.quantity_text ∷ behind_quantity m)
        (ap (price_string (at_price h m)) e))

  price-good :
      {p : ℕ}
      → parse_fixed_decimal_string m.price_text price_shift ≡ some p
      → feed (handle arrays) (reset h) (wide m)
        ≡ feed (handle arrays) (at_quantity h m p) (string m.quantity_text ∷ behind_quantity m)
  unfolding feed handle on_start_object on_key pending_of_key on_string on_uint64 number
      field_number bytes_eq price_string
  price-good e =
      feed-step (handle arrays) (at_price h m) (string m.price_text)
        (key (codes "q") ∷ string m.quantity_text ∷ behind_quantity m)
        (ap (price_string (at_price h m)) e)

  quantity-bad :
      (p : ℕ)
      → parse_fixed_decimal_string m.quantity_text quantity_shift ≡ none
      → outcome
          (feed (handle arrays) (at_quantity h m p) (string m.quantity_text ∷ behind_quantity m))
        ≡ none
  unfolding handle on_string quantity_string
  quantity-bad p e = ap outcome (
      feed-stop (handle arrays) (at_quantity h m p) (string m.quantity_text) (behind_quantity m)
        (ap (quantity_string (at_quantity h m p)) e))

  quantity-good :
      (p : ℕ) {q : ℕ}
      → parse_fixed_decimal_string m.quantity_text quantity_shift ≡ some q
      → outcome
          (feed (handle arrays) (at_quantity h m p) (string m.quantity_text ∷ behind_quantity m))
        ≡ with_amounts m (some p) (some q)
  unfolding feed handle on_key pending_of_key on_string on_uint64 number field_number bytes_eq
      on_bool on_end_object quantity_string
  quantity-good p e = ap outcome (
      feed-step (handle arrays) (at_quantity h m p) (string m.quantity_text) (behind_quantity m)
        (ap (quantity_string (at_quantity h m p)) e))

-- The handler accepts a trade exactly when its price and its quantity are good, and then passes on
-- the trade with these fields.
pub trade_document_lem :
    (arrays : Bool) (h : TradeSax) (m : Message)
    → outcome (feed (handle arrays) (reset h) (document m))
      ≡ with_amounts m
          (parse_fixed_decimal_string m.price_text price_shift)
          (parse_fixed_decimal_string m.quantity_text quantity_shift)
trade_document_lem arrays h m =
    ap outcome (document-wide arrays (reset h) m)
    ∙ elim (Option-cases (parse_fixed_decimal_string m.price_text price_shift)) [
      | inl bad ↦ rw (bad) (price-bad arrays h m bad)
      | inr (p, good) ↦
          elim (Option-cases (parse_fixed_decimal_string m.quantity_text quantity_shift)) [
            | inl bad ↦
                rw (good, bad)
                  (ap outcome (price-good arrays h m good) ∙ quantity-bad arrays h m p bad)
            | inr (q, good') ↦
                rw (good, good')
                  (ap outcome (price-good arrays h m good) ∙ quantity-good arrays h m p good')
          ]
    ]
