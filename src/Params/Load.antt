-- ===== src/Params/Load.antt =====
-- When the parameters can be loaded, and what they are.
mod Tests
use hft_demo.Common.{
  ℕ, ◌≡◌, ◌≢◌, ◌↔◌, refl, ap, subst, ◌∙◌, List, [], ◌∷◌, Option, none, some, Option-cases, inl, inr,
}
use hft_demo.Common.Bytes.{codes}
use hft_demo.Feeder.{TraderId, ByTraderId, at}
use hft_demo.Params.{
  Environment, TraderConfig, Params, and_then, require_env, env_name_indexed, to_underlying,
  load_trader, load_all, ensure_ipc_params_loaded, get_trader_config,
}

-- A variable is set to this text, which is not empty.
abbrev pub HasValue : Environment → List ℕ → List ℕ → Type 0
HasValue env name v = (env name ≡ some v) × (v ≢ [])

pub record IsTrader (env : Environment) (index : ℕ) (cfg : TraderConfig) : Type 0 where
  pub market_data :
      HasValue env (env_name_indexed (codes "HFT_IPC_SHM_MARKET_DATA_") index) cfg.market_data_shm
  pub observer :
      HasValue env
        (env_name_indexed (codes "HFT_IPC_SHM_TRADER_OBSERVER_") index)
        cfg.trader_observer_shm
  pub order : HasValue env (env_name_indexed (codes "HFT_IPC_SHM_ORDER_") index) cfg.order_shm

-- The parameters are the values of the nine variables.
pub record IsLoaded (env : Environment) (p : Params) : Type 0 where
  pub feeder : HasValue env (codes "HFT_IPC_SHM_FEEDER_TO_OBSERVER") p.feeder_observer_shm
  pub executor : HasValue env (codes "HFT_IPC_SHM_EXECUTOR_TO_OBSERVER") p.executor_observer_shm
  pub latency : HasValue env (codes "HFT_IPC_SHM_LATENCY") p.latency_shm
  pub btc_usdt : IsTrader env 0 p.trader_configs.of_btc_usdt
  pub eth_usdt : IsTrader env 1 p.trader_configs.of_eth_usdt

cons≢nil : (c : ℕ) (cs : List ℕ) → c ∷ cs ≢ []
cons≢nil c cs e = cc (e)

require_env-HasValue :
    (env : Environment) (name v : List ℕ) → require_env env name ≡ some v → HasValue env name v
unfolding require_env
require_env-HasValue env name v h = by_value (env name) refl h
  where
    by_value :
        (o : Option (List ℕ)) → env name ≡ o → require_env env name ≡ some v → HasValue env name v
    by_value none e h = cc (e, h)
    by_value (some []) e h = cc (e, h)
    by_value (some (c ∷ cs)) e h =
        let same : c ∷ cs ≡ v = cc (e, h) in
        (e ∙ ap some same, λ empty. cons≢nil c cs (same ∙ empty))

HasValue-require_env :
    (env : Environment) (name v : List ℕ) → HasValue env name v → require_env env name ≡ some v
unfolding require_env
HasValue-require_env env name [] (e, some_text) = absurd (some_text refl)
HasValue-require_env env name (c ∷ cs) (e, some_text) = rw (e) refl

and_then-some :
    {A B : Type 0} (o : Option A) (f : A → Option B) (b : B)
    → and_then o f ≡ some b
    → (a : A) × (o ≡ some a) × (f a ≡ some b)
and_then-some none f b h = cc (h)
and_then-some (some a) f b h = (a, refl, h)

IsTrader-load_trader :
    (env : Environment) (id : TraderId) (cfg : TraderConfig)
    → IsTrader env (to_underlying id) cfg
    → load_trader env id ≡ some cfg
unfolding load_trader
IsTrader-load_trader env id cfg v =
    rw
      (
        HasValue-require_env env _ _ v.market_data,
        HasValue-require_env env _ _ v.observer,
        HasValue-require_env env _ _ v.order,
      )
      refl

load_trader-IsTrader :
    (env : Environment) (id : TraderId) (cfg : TraderConfig)
    → load_trader env id ≡ some cfg
    → IsTrader env (to_underlying id) cfg
unfolding load_trader
load_trader-IsTrader env id cfg h =
    let (a, ea, ha) = and_then-some _ _ cfg h in
    let (b, eb, hb) = and_then-some _ _ cfg ha in
    let (c, ec, hc) = and_then-some _ _ cfg hb in
    let same : record { market_data_shm = a; trader_observer_shm = b; order_shm = c } ≡ cfg =
      cc (hc) in
    subst (IsTrader env (to_underlying id)) same (record {
      market_data = require_env-HasValue env _ a ea;
      observer = require_env-HasValue env _ b eb;
      order = require_env-HasValue env _ c ec;
    })

-- The parameters can be loaded exactly when all nine variables are set to texts that are not empty,
-- and are their values; the first call aborts in every other case.
pub load_all_lem : (env : Environment) (p : Params) → (load_all env ≡ some p) ↔ IsLoaded env p
unfolding load_all
load_all_lem env p = (
  λ h.
      let (a, ea, ha) = and_then-some _ _ p h in
      let (b, eb, hb) = and_then-some _ _ p ha in
      let (c, ec, hc) = and_then-some _ _ p hb in
      let (d, ed, hd) = and_then-some _ _ p hc in
      let (e, ee, he) = and_then-some _ _ p hd in
      let same : record {
        feeder_observer_shm = a;
        executor_observer_shm = b;
        latency_shm = c;
        trader_configs = record { of_btc_usdt = d; of_eth_usdt = e };
      }
          ≡ p =
        cc (he) in
      subst (IsLoaded env) same (record {
        feeder = require_env-HasValue env _ a ea;
        executor = require_env-HasValue env _ b eb;
        latency = require_env-HasValue env _ c ec;
        btc_usdt = load_trader-IsTrader env TraderId.btc_usdt d ed;
        eth_usdt = load_trader-IsTrader env TraderId.eth_usdt e ee;
      }),
  λ v.
      rw
        (
          HasValue-require_env env _ _ v.feeder,
          HasValue-require_env env _ _ v.executor,
          HasValue-require_env env _ _ v.latency,
          IsTrader-load_trader env TraderId.btc_usdt _ v.btc_usdt,
          IsTrader-load_trader env TraderId.eth_usdt _ v.eth_usdt,
        )
        refl,
)
