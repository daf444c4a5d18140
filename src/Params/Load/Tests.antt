-- ===== src/Params/Load/Tests.antt =====
-- Tests of the parameters.
use hft_demo.Common.{◌≡◌, ◌↔◌, refl, some}
use hft_demo.Common.Bytes.{codes, bytes_eq}
use hft_demo.Feeder.{TraderId}
use hft_demo.Params.{
  Environment, Params, require_env, load_trader, load_all, parse_trader_id_or_abort,
}
use hft_demo.Params.Load.{IsLoaded, load_all_lem}

-- Every variable is set to its own name.
abbrev named : Environment
named env_name = some env_name

abbrev named_params : Params
named_params = record {
  feeder_observer_shm = codes "HFT_IPC_SHM_FEEDER_TO_OBSERVER";
  executor_observer_shm = codes "HFT_IPC_SHM_EXECUTOR_TO_OBSERVER";
  latency_shm = codes "HFT_IPC_SHM_LATENCY";
  trader_configs = record {
    of_btc_usdt = record {
      market_data_shm = codes "HFT_IPC_SHM_MARKET_DATA_0";
      trader_observer_shm = codes "HFT_IPC_SHM_TRADER_OBSERVER_0";
      order_shm = codes "HFT_IPC_SHM_ORDER_0";
    };
    of_eth_usdt = record {
      market_data_shm = codes "HFT_IPC_SHM_MARKET_DATA_1";
      trader_observer_shm = codes "HFT_IPC_SHM_TRADER_OBSERVER_1";
      order_shm = codes "HFT_IPC_SHM_ORDER_1";
    };
  };
}

named_loads : load_all named ≡ some named_params
unfolding load_all require_env load_trader
named_loads = refl

role_parses : parse_trader_id_or_abort (codes "trader_ethusdt") ≡ some TraderId.eth_usdt
unfolding parse_trader_id_or_abort bytes_eq
role_parses = refl

load_all_lem_example : (load_all named ≡ some named_params) ↔ IsLoaded named named_params
load_all_lem_example = load_all_lem named named_params
