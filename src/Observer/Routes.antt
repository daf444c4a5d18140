-- ===== src/Observer/Routes.antt =====
-- Which log goes to which file, in RunObserver of observer/observer.cpp.
use hft_demo.Common.{ℕ, List, [], ◌∷◌, ◌++◌}
use hft_demo.Common.Bytes.{codes}
use hft_demo.Feeder.{TraderId, at}
use hft_demo.Params.{Params}

-- `kLogfilesDir`
abbrev pub logfiles_dir : List ℕ
logfiles_dir = codes "/var/log/hft/"

-- `GetTraderLogfilePath`
unfoldable pub get_trader_logfile_path : TraderId → List ℕ
get_trader_logfile_path TraderId.btc_usdt = codes "trader_btcusdt.log"
get_trader_logfile_path TraderId.eth_usdt = codes "trader_ethusdt.log"

-- The route of a trader's log: the name of its shared memory and its file.
abbrev pub trader_route : Params → TraderId → List ℕ × List ℕ
trader_route p id =
    ((at p.trader_configs id).trader_observer_shm, logfiles_dir ++ get_trader_logfile_path id)

-- `log_routes`
unfoldable pub log_routes : Params → List (List ℕ × List ℕ)
log_routes p =
    (p.feeder_observer_shm, logfiles_dir ++ codes "feeder.log")
    ∷ (p.executor_observer_shm, logfiles_dir ++ codes "executor.log")
    ∷ trader_route p TraderId.btc_usdt
    ∷ trader_route p TraderId.eth_usdt
    ∷ []
