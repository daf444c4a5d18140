-- ===== src/Trader/Restart/Tests.antt =====
-- Tests of the restart of the book.
use hft_demo.Common.{◌≡◌, refl, map, take, true, false, [], ◌∷◌}
use hft_demo.Common.Bytes.{codes}
use hft_demo.Market.{order_book_depth, empty_snapshot}
use hft_demo.Book.{empty_book, levels}
use hft_demo.Parser.Fields.{json_root_is_object}
use hft_demo.Parser.Events.{Reader}
use hft_demo.Parser.Rows.{good_rows}
use hft_demo.Parser.Snapshot.{SnapshotSax}
use hft_demo.Parser.Snapshot.Document.{Depth, document}
use hft_demo.Trader.{reset_snapshot}
use hft_demo.Trader.Restart.{row_of, reset_snapshot_lem}

-- Two good rows and a bad one on the side of the bids.
abbrev three_rows : Depth
three_rows = record {
  last_id = 7;
  bid_rows = (codes "3.5", codes "1") ∷ (codes "3.4", codes "2") ∷ (codes "x", codes "2") ∷ [];
  ask_rows = (codes "3.6", codes "1") ∷ [];
}

abbrev exchange : Reader
exchange json = (document three_rows, true)

abbrev handler : SnapshotSax
handler = record {
  object_depth = 0;
  array_depth = 0;
  pending_snapshot = 0;
  in_bids = false;
  in_asks = false;
  bids_side_done = false;
  asks_side_done = false;
  row_string_idx = 0;
  row0 = [];
  out = empty_snapshot;
}

is_object : json_root_is_object (codes "{}") ≡ true
unfolding json_root_is_object
is_object = refl

reset_snapshot_lem_example :
    let (h', b', ok) = reset_snapshot exchange (codes "{}") handler (empty_book order_book_depth) in
    (ok ≡ true)
    × (b'.last_update_id ≡ 7)
    × (levels b'.bids ≡ map row_of (take order_book_depth (good_rows three_rows.bid_rows)))
    × (levels b'.asks ≡ map row_of (take order_book_depth (good_rows three_rows.ask_rows)))
reset_snapshot_lem_example =
    reset_snapshot_lem exchange (codes "{}") handler three_rows is_object refl
      (empty_book order_book_depth) refl refl
