-- ===== src/Startup.antt =====
-- What the processes do before their loops: the memories that they create, and the loops of
-- trader/trader.cpp, executor/executor.cpp and observer/observer.cpp that open the memories of others.
pub mod Main
pub mod Opening
pub mod Processes
use hft_demo.Common.{ℕ, zero, suc, ◌+◌, Bool, true, false, List, Option, ◌⊎◌, inl, inr}
use hft_demo.Memory.{
  create_only, open_only, Region, SharedMemory, Failure, version_conflict, shared_memory,
  update_heartbeat,
}
use hft_demo.Feeder.{TraderId, ByTraderId, at}
use hft_demo.Params.{Params}

-- What a start-up comes to within the attempts looked at: the process returns 1, goes on with what
-- it has, or still tries to open a memory.
pub data Start {ℓ} (A : Type ℓ) : Type ℓ where
  fails : Start A
  waits : Start A
  goes_on : A → Start A

-- What follows a part of the start-up.
abbrev pub and_then : {A B : Type 0} → Start A → (A → Start B) → Start B
and_then fails f = fails
and_then waits f = waits
and_then (goes_on a) f = f a

-- A round of `while (shm == nullptr)`: a version conflict ends the process, any other exception is
-- followed by `later`.
unfoldable pub after_attempt : Failure ⊎ SharedMemory → Start SharedMemory → Start SharedMemory
after_attempt (inr m) later = goes_on m
after_attempt (inl version_conflict) later = fails
after_attempt (inl Failure.no_region) later = later
after_attempt (inl Failure.invalid_alignment) later = later
after_attempt (inl Failure.invalid_size) later = later
after_attempt (inl Failure.magic_missed) later = later
after_attempt (inl (Failure.mlock_failed e)) later = later

-- The loop; attempt `i` finds `attempts i`.
unfoldable pub open_loop :
    (alignment : ℕ) (sizes : List ℕ) (attempts : ℕ → Option Region) (fuel i : ℕ)
    → Start SharedMemory
open_loop alignment sizes attempts zero i = waits
open_loop alignment sizes attempts (suc fuel) i =
    let rest = open_loop alignment sizes attempts fuel (i + 1) in
    after_attempt (shared_memory alignment sizes open_only (attempts i)) rest

-- A memory is created, and has its first heartbeat; any exception ends the process.
unfoldable pub create : Failure ⊎ SharedMemory → (now : ℕ) → Start SharedMemory
create (inl failure) now = fails
create (inr m) now = goes_on (update_heartbeat m now)

-- What the compiler lays down: the alignment, and the sizes of `Meta` and of the objects of the
-- memories.
pub record Layouts : Type 0 where
  pub alignment : ℕ
  pub to_observer : List ℕ
  pub market_data : List ℕ
  pub order : List ℕ
  pub latency : List ℕ

-- What the operating system gives when a memory is created, behind the removal of what had its name,
-- and the time behind that.
pub record Creation : Type 0 where
  pub region : Option Region
  pub now : ℕ

-- What is given for a name, and what attempt `i` to open a name finds.
abbrev pub Grants : Type 0
Grants = (name : List ℕ) → Creation

abbrev pub Finds : Type 0
Finds = (name : List ℕ) → (i : ℕ) → Option Region

-- A memory, with the name it was created or opened by.
pub record Named : Type 0 where
  pub name : List ℕ
  pub memory : SharedMemory

abbrev pub named : (name : List ℕ) → Start SharedMemory → Start Named
named name s = and_then s (λ m. goes_on (record { name = name; memory = m }))

abbrev pub created : (alignment : ℕ) (sizes : List ℕ) → Grants → (name : List ℕ) → Start Named
created alignment sizes grants name =
    named name
      (create (shared_memory alignment sizes create_only (grants name).region) (grants name).now)

abbrev pub opened :
    (alignment : ℕ) (sizes : List ℕ) → Finds → (fuel : ℕ) (name : List ℕ) → Start Named
opened alignment sizes finds fuel name = named name (open_loop alignment sizes (finds name) fuel 0)

-- The memories of a trader.
pub record TraderMemories : Type 0 where
  pub log : Named
  pub order : Named
  pub market_data : Named

-- `RunTrader` up to its loop.
unfoldable pub start_trader :
    Layouts → Params → TraderId → Grants → Finds → (fuel : ℕ) → Start TraderMemories
start_trader l p id grants finds fuel =
    let cfg = at p.trader_configs id in
    and_then (created l.alignment l.to_observer grants cfg.trader_observer_shm) (λ log.
      and_then (created l.alignment l.order grants cfg.order_shm) (λ order.
        and_then (opened l.alignment l.market_data finds fuel cfg.market_data_shm) (λ market_data.
          goes_on (record { log = log; order = order; market_data = market_data }))))

-- The memories of the executor.
pub record ExecutorMemories : Type 0 where
  pub log : Named
  pub latency : Named
  pub orders : ByTraderId Named

-- `RunExecutor` up to its loop.
unfoldable pub start_executor :
    Layouts → Params → Grants → Finds → (fuel : ℕ) → Start ExecutorMemories
start_executor l p grants finds fuel =
    let cfgs = p.trader_configs in
    and_then (created l.alignment l.to_observer grants p.executor_observer_shm) (λ log.
      and_then (created l.alignment l.latency grants p.latency_shm) (λ latency.
        and_then (opened l.alignment l.order finds fuel cfgs.of_btc_usdt.order_shm) (λ btc_usdt.
          and_then (opened l.alignment l.order finds fuel cfgs.of_eth_usdt.order_shm) (λ eth_usdt.
            goes_on (record {
              log = log;
              latency = latency;
              orders = record { of_btc_usdt = btc_usdt; of_eth_usdt = eth_usdt };
            })))))

-- The memories of the feeder.
pub record FeederMemories : Type 0 where
  pub log : Named
  pub market_data : ByTraderId Named

-- The connection of `BinanceWsClient`, whose constructor may throw.
abbrev pub connect : {A : Type 0} → (is_connected : Bool) → A → Start A
connect true a = goes_on a
connect false a = fails

-- `RunFeeder` up to its loop; every exception is caught and makes it return 1.
unfoldable pub start_feeder :
    Layouts → Params → Grants → (is_connected : Bool) → Start FeederMemories
start_feeder l p grants is_connected =
    let cfgs = p.trader_configs in
    and_then (created l.alignment l.to_observer grants p.feeder_observer_shm) (λ log.
      and_then (created l.alignment l.market_data grants cfgs.of_btc_usdt.market_data_shm)
        (λ btc_usdt.
          and_then (created l.alignment l.market_data grants cfgs.of_eth_usdt.market_data_shm)
            (λ eth_usdt. connect is_connected (record {
              log = log;
              market_data = record { of_btc_usdt = btc_usdt; of_eth_usdt = eth_usdt };
            }))))
