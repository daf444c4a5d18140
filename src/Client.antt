-- ===== src/Client.antt =====
-- lib/binance/binance_api_client.hpp and .cpp: what the client asks of the exchange and what it makes
-- of the answer. Boost, which carries both, is a parameter: what it has read.
use hft_demo.Common.{
  ℕ, ◌*◌, ◌-◌, ◌≤◌, ◌≡◌, refl, Bool, true, List, [], ◌++◌, Option, none, some, length, take,
  if◌then◌else◌, take_all, arith,
}
use hft_demo.Common.Bytes.{codes}
use hft_demo.Logger.{decimal}
use hft_demo.Market.{order_book_depth}
use hft_demo.Feeder.{TraderId}
use hft_demo.Trader.Symbols.{binance_symbol}

-- `kBodyBufferSize`
abbrev pub body_buffer_size : ℕ
body_buffer_size = 1024 * 1024

-- `target_`, as the constructor of `BinanceApiClient` formats it.
unfoldable pub api_target : (symbol : List ℕ) (limit : ℕ) → List ℕ
api_target symbol limit =
    codes "/api/v3/depth?symbol=" ++ symbol ++ codes "&limit=" ++ decimal 10 limit []

-- The target of a trader, whose processor of updates makes the client.
unfoldable pub trader_target : TraderId → List ℕ
trader_target id = api_target (binance_symbol id) order_book_depth

-- What the parser of Boost has of a response: the bytes that it put into the body buffer, and whether
-- the response is done; none stands for an exception.
pub record HttpRead : Type 0 where
  pub body : List ℕ
  pub is_done : Bool

-- `GetOrderBookSnapshot` behind the read; none stands for an exception.
unfoldable pub get_order_book_snapshot : Option HttpRead → Option (List ℕ)
get_order_book_snapshot none = none
get_order_book_snapshot (some r) =
    if r.is_done
    then (let size = body_buffer_size - length r.body in
        some (take (body_buffer_size - size) r.body))
    else none

-- A response that fits the body buffer is passed on whole.
pub get_order_book_snapshot-whole :
    (r : HttpRead)
    → r.is_done ≡ true
    → length r.body ≤ body_buffer_size
    → get_order_book_snapshot (some r) ≡ some r.body
unfolding get_order_book_snapshot
get_order_book_snapshot-whole r done fits =
    rw (done, take_all (body_buffer_size - (body_buffer_size - length r.body)) r.body (omega arith))
      refl
