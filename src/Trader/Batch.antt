-- ===== src/Trader/Batch.antt =====
-- A batch of updates, from the queue to the levels of the trader's book.
use hft_demo.Common.{
  ℕ, ◌+◌, ◌≤◌, ◌^◌, ◌≡◌, refl, ap, subst, sym, ◌∙◌, Bool, true, false, List, [], ◌∷◌, ◌++◌, some,
  arith, le→ltb_false, if◌then◌else◌, take, add64, u32_mod,
}
use hft_demo.Market.{OrderBookUpdate, BookSide, bid, ask, order_book_depth}
use hft_demo.Book.{
  Row, SideOrder, Book, levels, update_bid, update_ask, price_descending, price_ascending,
}
use hft_demo.Book.Levels.{put}
use hft_demo.Book.Refine.{update_refines}
use hft_demo.Book.Top.{IsBook}
use hft_demo.Ring.{Ring}
use hft_demo.Ring.Queue.{Queue, live, view, IsValid}
use hft_demo.Parser.Events.{Reader}
use hft_demo.Trader.{update_stamps, update_side, apply_update}
use hft_demo.Trader.Updates.{update_side-IsBook}
use hft_demo.Trader.Loop.{
  Processor, again, returns, take_update, queue_update, alive, process_update, consume,
  consume-step, stopped, size-view, process_update_returns,
}

-- The updates of one event, with its two ids: `has_more` in all but the last.
abbrev pub IsBatch : (first_id last_id : ℕ) → List OrderBookUpdate → Type 0
IsBatch first_id last_id [] = ⊥
IsBatch first_id last_id (u ∷ []) =
    (u.first_update_id ≡ first_id) × (u.last_update_id ≡ last_id) × (u.has_more ≡ false)
IsBatch first_id last_id (u ∷ u' ∷ us) =
    (u.first_update_id ≡ first_id)
    × (u.last_update_id ≡ last_id)
    × (u.has_more ≡ true)
    × IsBatch first_id last_id (u' ∷ us)

-- The updates of one side, as changes of its list of levels, of which the worst is dropped when
-- there are more than the depth.
abbrev pub put_one : SideOrder → (price quantity : ℕ) → List Row → List Row
put_one o price quantity rs = take order_book_depth (put o price quantity rs)

abbrev pub put_bids : List OrderBookUpdate → List Row → List Row
put_bids [] rs = rs
put_bids (u ∷ us) rs =
    put_bids us (elim u.side [ bid ↦ put_one price_descending u.price u.quantity rs | ask ↦ rs ])

abbrev pub put_asks : List OrderBookUpdate → List Row → List Row
put_asks [] rs = rs
put_asks (u ∷ us) rs =
    put_asks us (elim u.side [ bid ↦ rs | ask ↦ put_one price_ascending u.price u.quantity rs ])

-- The book that the updates leave.
abbrev pub apply_all : Book → List OrderBookUpdate → Book
apply_all b [] = b
apply_all b (u ∷ us) = apply_all (update_side u.side b u.last_update_id u.price u.quantity) us

update_side-levels :
    (side : BookSide) (b : Book) (id price quantity : ℕ)
    → IsBook order_book_depth b
    → let b' = update_side side b id price quantity in
      (levels b'.bids ≡ elim side as (λ _. List Row) [
        | bid ↦ put_one price_descending price quantity (levels b.bids)
        | ask ↦ levels b.bids
      ])
      × (levels b'.asks ≡ elim side as (λ _. List Row) [
        | bid ↦ levels b.asks
        | ask ↦ put_one price_ascending price quantity (levels b.asks)
      ])
unfolding update_bid update_ask
update_side-levels bid b id price quantity v = (update_refines v.bids price quantity, refl)
update_side-levels ask b id price quantity v = (refl, update_refines v.asks price quantity)

update_side-id :
    (side : BookSide) (b : Book) (id price quantity : ℕ)
    → (update_side side b id price quantity).last_update_id ≡ id
unfolding update_bid update_ask
update_side-id bid b id price quantity = refl
update_side-id ask b id price quantity = refl

-- What the updates do to the levels of a valid book.
pub apply_all-levels :
    (us : List OrderBookUpdate) (b : Book)
    → IsBook order_book_depth b
    → (levels (apply_all b us).bids ≡ put_bids us (levels b.bids))
      × (levels (apply_all b us).asks ≡ put_asks us (levels b.asks))
      × IsBook order_book_depth (apply_all b us)
apply_all-levels [] b v = (refl, refl, v)
apply_all-levels (u ∷ us) b v =
    let b' = update_side u.side b u.last_update_id u.price u.quantity in
    let v' = update_side-IsBook u.side b u.last_update_id u.price u.quantity v in
    let (bids, asks) = update_side-levels u.side b u.last_update_id u.price u.quantity v in
    let (bids', asks', valid) = apply_all-levels us b' v' in
    (bids' ∙ ap (put_bids us) bids, asks' ∙ ap (put_asks us) asks, valid)

module _ (reader : Reader) (responses : ℕ → List ℕ) (clock : ℕ → ℕ) (out : OrderBookUpdate) where
  -- An update that is neither ahead of the book nor older than it is applied.
  apply_update-in_step :
      (response : List ℕ) (p : Processor) (u : OrderBookUpdate)
      → u.first_update_id ≤ add64 p.order_book.last_update_id 1
      → p.order_book.last_update_id ≤ u.last_update_id
      → apply_update reader response p.handler p.order_book u
        ≡ (p.handler, update_side u.side p.order_book u.last_update_id u.price u.quantity, true)
  unfolding apply_update
  apply_update-in_step response p u no_gap current =
      let e = le→ltb_false _ _ no_gap in let e' = le→ltb_false _ _ current in rw (e, e') refl

  -- The processor behind such an update.
  abbrev in_step : (now : ℕ) → Processor → OrderBookUpdate → Processor
  in_step now p u = record {
    handler = p.handler;
    order_book = update_side u.side p.order_book u.last_update_id u.price u.quantity;
    stamps = update_stamps p.stamps u.feeder_read_steady_ns u.feeder_write_steady_ns now;
  }

  take_update-in_step :
      (response : List ℕ) (now : ℕ) (p : Processor) (u : OrderBookUpdate)
      → u.first_update_id ≤ add64 p.order_book.last_update_id 1
      → p.order_book.last_update_id ≤ u.last_update_id
      → take_update reader response now p u
        ≡ (in_step now p u, if u.has_more then again else returns true)
  unfolding take_update
  take_update-in_step response now p u no_gap current =
      let e = apply_update-in_step response p u no_gap current in rw (e) refl

  -- What the rounds of a call come to on the front of the queue.
  abbrev Consumed : (i : ℕ) → (us rest : List OrderBookUpdate) → Processor → Type 0
  Consumed i us rest p =
      (p' : Processor) × (consume reader responses clock out i (us ++ rest) p ≡ ((rest, p'), true))
      × (p'.order_book ≡ apply_all p.order_book us)
      × (p'.handler ≡ p.handler)

  module _ (f l : ℕ) (ordered : f ≤ add64 l 1) where
    consume-batch :
        (us rest : List OrderBookUpdate) (i : ℕ) (p : Processor)
        → IsBatch f l us
        → f ≤ add64 p.order_book.last_update_id 1
        → p.order_book.last_update_id ≤ l
        → Consumed i us rest p
    consume-batch [] rest i p b no_gap current = absurd b
    consume-batch (u ∷ []) rest i p (first, last, more) no_gap current =
        let taken = take_update-in_step (responses i) (clock i) p u (omega arith) (omega arith) in
        let p' = in_step (clock i) p u in
        (
          p',
          consume-step reader responses clock out i u rest p
              ∙ ap (λ t. stopped rest t (consume reader responses clock out (i + 1) rest t.0)) taken
              ∙ rw (more) refl,
          refl,
          refl,
        )
    consume-batch (u ∷ u' ∷ us) rest i p (first, last, more, b) no_gap current =
        let taken = take_update-in_step (responses i) (clock i) p u (omega arith) (omega arith) in
        let p' = in_step (clock i) p u in
        let id = update_side-id u.side p.order_book u.last_update_id u.price u.quantity in
        let (q, e, book, same) =
          consume-batch (u' ∷ us) rest (i + 1) p' b (rw (id, last) ordered)
            (rw (id, last) (omega arith)) in
        (
          q,
          consume-step reader responses clock out i u (u' ∷ (us ++ rest)) p
              ∙ ap
                  (λ t.
                    stopped (u' ∷ (us ++ rest)) t
                      (consume reader responses clock out (i + 1) (u' ∷ (us ++ rest)) t.0))
                  taken
              ∙ rw (more) e,
          book,
          same,
        )

  -- With both ids of a batch in step with the trader's book, `ProcessUpdate` on a valid ring, whose
  -- length is a power of two up to 2^32 and whose queue starts with the batch, returns true
  -- having taken exactly the batch, leaves its snapshot handler as it is, and leaves a valid book, on
  -- each side of which are the old levels with the updates of that side put in one by one.
  pub process_update-batch :
      (k f l : ℕ) (ring : Ring OrderBookUpdate) (p : Processor) (us rest : List OrderBookUpdate)
      → 2 ^ k ≤ u32_mod
      → IsValid (2 ^ k) ring
      → view (2 ^ k) out ring ≡ live (us ++ rest)
      → IsBatch f l us
      → f ≤ add64 l 1
      → f ≤ add64 p.order_book.last_update_id 1
      → p.order_book.last_update_id ≤ l
      → IsBook order_book_depth p.order_book
      → (ring' : Ring OrderBookUpdate) × (p' : Processor) × (process_update reader responses clock
            out
            (2 ^ k)
            (2 ^ k)
            0
            (ring, p)
          ≡ some ((ring', p'), true))
        × (view (2 ^ k) out ring' ≡ live rest)
        × IsValid (2 ^ k) ring'
        × (levels p'.order_book.bids ≡ put_bids us (levels p.order_book.bids))
        × (levels p'.order_book.asks ≡ put_asks us (levels p.order_book.asks))
        × IsBook order_book_depth p'.order_book
        × (p'.handler ≡ p.handler)
  process_update-batch k f l ring p us rest small v queued b ordered no_gap current valid =
      let (ring', returned, same, whole) =
        process_update_returns reader responses clock out k small (2 ^ k) 0 ring p v
          (size-view reader responses clock out k small ring v) in
      let (p', consumed, book, handler) = consume-batch f l ordered us rest 0 p b no_gap current in
      let outcome =
        ap (λ q. queue_update reader responses clock out 0 q p) queued ∙ ap alive consumed in
      let (bids, asks, valid') = apply_all-levels us p.order_book valid in
      (
        ring',
        p',
        returned
            ∙ ap (λ (t : (Queue OrderBookUpdate × Processor) × Bool). some ((ring', t.0.1), t.1))
                outcome,
        same ∙ ap (λ (t : (Queue OrderBookUpdate × Processor) × Bool). t.0.0) outcome,
        whole,
        ap (λ (b : Book). levels b.bids) book ∙ bids,
        ap (λ (b : Book). levels b.asks) book ∙ asks,
        subst (IsBook order_book_depth) (sym book) valid',
        handler,
      )
