-- ===== src/Params.antt =====
-- lib/interprocess/ipc_params.hpp and .cpp: the names of the shared memories, from the environment.
-- The process aborts where the result here is `none`.
pub mod Load
use hft_demo.Common.{ℕ, Bool, true, false, List, [], ◌∷◌, ◌++◌, Option, none, some, if◌then◌else◌}
use hft_demo.Common.Bytes.{codes, bytes_eq}
use hft_demo.Feeder.{TraderId, ByTraderId, at}
use hft_demo.Logger.{decimal}

-- std::getenv
abbrev pub Environment : Type 0
Environment = List ℕ → Option (List ℕ)

-- `TraderConfig`
pub record TraderConfig : Type 0 where
  pub market_data_shm : List ℕ
  pub trader_observer_shm : List ℕ
  pub order_shm : List ℕ

-- `g_feeder_observer_shm`, `g_executor_observer_shm`, `g_latency_shm` and `g_trader_configs`
pub record Params : Type 0 where
  pub feeder_observer_shm : List ℕ
  pub executor_observer_shm : List ℕ
  pub latency_shm : List ℕ
  pub trader_configs : ByTraderId TraderConfig

-- What follows a step that may abort.
abbrev pub and_then : {A B : Type 0} → Option A → (A → Option B) → Option B
and_then none f = none
and_then (some a) f = f a

-- A variable that is set to an empty text counts as not set.
abbrev non_empty : Option (List ℕ) → Option (List ℕ)
non_empty none = none
non_empty (some []) = none
non_empty (some (c ∷ cs)) = some (c ∷ cs)

-- `RequireEnv`
unfoldable pub require_env : Environment → (env_name : List ℕ) → Option (List ℕ)
require_env env env_name = non_empty (env env_name)

-- `EnvNameIndexed`
abbrev pub env_name_indexed : List ℕ → (index : ℕ) → List ℕ
env_name_indexed prefix index = prefix ++ decimal 20 index []

-- std::to_underlying of a `TraderId`.
abbrev pub to_underlying : TraderId → ℕ
to_underlying TraderId.btc_usdt = 0
to_underlying TraderId.eth_usdt = 1

-- The body of the loop of `LoadAll`.
unfoldable pub load_trader : Environment → TraderId → Option TraderConfig
load_trader env id =
    and_then
      (require_env env (env_name_indexed (codes "HFT_IPC_SHM_MARKET_DATA_") (to_underlying id)))
      (λ market_data.
        and_then
          (require_env env
            (env_name_indexed (codes "HFT_IPC_SHM_TRADER_OBSERVER_") (to_underlying id)))
          (λ observer.
            and_then
              (require_env env (env_name_indexed (codes "HFT_IPC_SHM_ORDER_") (to_underlying id)))
              (λ order. some (record {
                market_data_shm = market_data;
                trader_observer_shm = observer;
                order_shm = order;
              }))))

-- `LoadAll`
unfoldable pub load_all : Environment → Option Params
load_all env = and_then (require_env env (codes "HFT_IPC_SHM_FEEDER_TO_OBSERVER")) (λ feeder.
    and_then (require_env env (codes "HFT_IPC_SHM_EXECUTOR_TO_OBSERVER")) (λ executor.
      and_then (require_env env (codes "HFT_IPC_SHM_LATENCY")) (λ latency.
        and_then (load_trader env TraderId.btc_usdt) (λ btc_usdt.
          and_then (load_trader env TraderId.eth_usdt) (λ eth_usdt. some (record {
            feeder_observer_shm = feeder;
            executor_observer_shm = executor;
            latency_shm = latency;
            trader_configs = record { of_btc_usdt = btc_usdt; of_eth_usdt = eth_usdt };
          }))))))

-- `EnsureIpcParamsLoaded`: what an earlier call has loaded is kept.
abbrev pub ensure_ipc_params_loaded : Environment → Option Params → Option Params
ensure_ipc_params_loaded env none = load_all env
ensure_ipc_params_loaded env (some p) = some p

-- `GetTraderConfig`, with the parameters as the call leaves them.
unfoldable pub get_trader_config :
    Environment → Option Params → TraderId → Option (Params × TraderConfig)
get_trader_config env loaded id =
    and_then (ensure_ipc_params_loaded env loaded) (λ p. some (p, at p.trader_configs id))

-- `ParseTraderIdOrAbort`
unfoldable pub parse_trader_id_or_abort : (role : List ℕ) → Option TraderId
unfolding bytes_eq
parse_trader_id_or_abort role =
    if bytes_eq role (codes "trader_btcusdt")
    then some TraderId.btc_usdt
    else if bytes_eq role (codes "trader_ethusdt")
    then some TraderId.eth_usdt
    else none
