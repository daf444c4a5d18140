-- ===== src/Startup/Processes.antt =====
-- A trader's start-up beside the feeder's: what the feeder has created is what the trader opens.
mod Tests
use hft_demo.Common.{
  ℕ, ◌%◌, ◌<◌, ◌≡◌, refl, ap, sym, ◌∙◌, Bool, true, false, List, Option, some, none, ◌⊎◌, inl, inr,
  arith, u32_mod,
}
use hft_demo.Memory.{
  ipc_magic, ipc_version, get_objects_size, create_only, open_only, Meta, new_meta, Region,
  SharedMemory, Failure, objects_of, shared_memory, update_heartbeat,
}
use hft_demo.Memory.Open.{IsUsable, attached, open_lem}
use hft_demo.Feeder.{TraderId, ByTraderId, at}
use hft_demo.Params.{Params}
use hft_demo.Startup.{
  Start, fails, waits, goes_on, and_then, after_attempt, open_loop, create, Layouts, Creation,
  Grants, Finds, Named, named, created, opened, TraderMemories, start_trader, FeederMemories,
  start_feeder,
}
use hft_demo.Startup.Opening.{is_tried_again, result_of, open_loop_ends}

-- The operating system gives the region that the objects need.
pub record IsGranted (alignment : ℕ) (sizes : List ℕ) (c : Creation) : Type 0 where
  pub region : Region
  pub given : c.region ≡ some region
  pub usable : IsUsable alignment sizes create_only region

-- It maps the region that the objects need.
pub record IsMapped (alignment : ℕ) (sizes : List ℕ) (r : Region) : Type 0 where
  pub aligned : r.address % alignment ≡ 0
  pub whole : r.size ≡ get_objects_size alignment sizes
  pub locked : r.mlock_error ≡ none

-- What attempt `n` finds under the name of a memory is what the process that created the memory has
-- left there, with its last heartbeat at the time `beat`.
abbrev pub IsShared : Finds → (n beat : ℕ) → Named → Type 0
IsShared finds n beat m =
    (r : Region) → finds m.name n ≡ some r → r.found ≡ (update_heartbeat m.memory beat).meta

-- The memory that a process has created.
abbrev pub fresh : (alignment : ℕ) (sizes : List ℕ) (now : ℕ) → SharedMemory
fresh alignment sizes now = record {
  meta = record new_meta { heartbeat_seconds = now % u32_mod };
  objects = objects_of alignment sizes;
}

module _ (alignment : ℕ) (sizes : List ℕ) where
  abbrev pub made : Grants → (name : List ℕ) → Named
  made grants name = record { name = name; memory = fresh alignment sizes (grants name).now }

  created-IsGranted :
      (grants : Grants) (name : List ℕ)
      → IsGranted alignment sizes (grants name)
      → created alignment sizes grants name ≡ goes_on (made grants name)
  unfolding create update_heartbeat
  created-IsGranted grants name g =
      let opens =
        (open_lem alignment sizes create_only g.region
            (attached alignment sizes create_only g.region)).1
          (g.usable, refl) in
      ap (λ x. named name (create x (grants name).now))
        (ap (shared_memory alignment sizes create_only) g.given ∙ opens)

  -- A region that holds the meta of a memory made here opens as that memory.
  opened-IsMapped :
      (now beat : ℕ) (r : Region)
      → IsMapped alignment sizes r
      → r.found ≡ (update_heartbeat (fresh alignment sizes now) beat).meta
      → shared_memory alignment sizes open_only (some r)
        ≡ inr (update_heartbeat (fresh alignment sizes now) beat)
  unfolding update_heartbeat
  opened-IsMapped now beat r m found =
      let v : IsUsable alignment sizes open_only r = record {
        aligned = m.aligned;
        whole = m.whole;
        locked = m.locked;
        magic = λ _. ap (λ (x : Meta). x.magic) found;
        version = λ _. ap (λ (x : Meta). x.version) found;
      } in
      (open_lem alignment sizes open_only r (attached alignment sizes open_only r)).1 (v, refl)
      ∙ ap (λ (x : Meta). inr (record { meta = x; objects = objects_of alignment sizes })) found

module _ (l : Layouts) (p : Params) (grants : Grants) where
  -- The memories that the feeder goes on with.
  abbrev pub feeders : FeederMemories
  feeders = record {
    log = made l.alignment l.to_observer grants p.feeder_observer_shm;
    market_data = record {
      of_btc_usdt =
          made l.alignment l.market_data grants p.trader_configs.of_btc_usdt.market_data_shm;
      of_eth_usdt =
          made l.alignment l.market_data grants p.trader_configs.of_eth_usdt.market_data_shm;
    };
  }

  feeders-at :
      (id : TraderId)
      → at feeders.market_data id
        ≡ made l.alignment l.market_data grants (at p.trader_configs id).market_data_shm
  feeders-at TraderId.btc_usdt = refl
  feeders-at TraderId.eth_usdt = refl

  -- Where the operating system grants the feeder its memories and its connection stands, the feeder
  -- goes on to its loop. Where it grants a trader its two memories, the trader goes on too as soon as
  -- an attempt maps a region for the name of its market data, given that every attempt before can be
  -- repeated and that what is found under the name of the feeder's memory for this trader is what the
  -- feeder left there, last with a heartbeat. The trader's memory of market data then has the name
  -- of that memory of the feeder, the same content, and its objects at the same places.
  pub trader_meets_feeder :
      (id : TraderId) (finds : Finds) (n fuel beat : ℕ) (r : Region)
      → let cfg = at p.trader_configs id in
        let attempts = finds cfg.market_data_shm in
        IsGranted l.alignment l.to_observer (grants p.feeder_observer_shm)
        → ((i : TraderId)
            → IsGranted l.alignment l.market_data (grants (at p.trader_configs i).market_data_shm))
        → IsGranted l.alignment l.to_observer (grants cfg.trader_observer_shm)
        → IsGranted l.alignment l.order (grants cfg.order_shm)
        → attempts n ≡ some r
        → IsMapped l.alignment l.market_data r
        → ((f : FeederMemories)
            → start_feeder l p grants true ≡ goes_on f
            → IsShared finds n beat (at f.market_data id))
        → ((j : ℕ) → j < n → is_tried_again (result_of l.alignment l.market_data attempts j) ≡ true)
        → n < fuel
        → (f : FeederMemories) × (t : TraderMemories) × (start_feeder l p grants true ≡ goes_on f)
          × (start_trader l p id grants finds fuel ≡ goes_on t)
          × (t.market_data.name ≡ (at f.market_data id).name)
          × (t.market_data.memory ≡ update_heartbeat (at f.market_data id).memory beat)
  unfolding start_feeder start_trader after_attempt
  trader_meets_feeder id finds n fuel beat r g g_market g_log g_order there mapped shared again
        enough =
      let cfg = at p.trader_configs id in
      let attempts = finds cfg.market_data_shm in
      let c = created-IsGranted l.alignment l.to_observer grants p.feeder_observer_shm g in
      let c_btc =
        created-IsGranted l.alignment l.market_data grants
          p.trader_configs.of_btc_usdt.market_data_shm (g_market TraderId.btc_usdt) in
      let c_eth =
        created-IsGranted l.alignment l.market_data grants
          p.trader_configs.of_eth_usdt.market_data_shm (g_market TraderId.eth_usdt) in
      let starts : start_feeder l p grants true ≡ goes_on feeders = rw (c, c_btc, c_eth) refl in
      let same = feeders-at id in
      let now = (grants cfg.market_data_shm).now in
      let left : r.found ≡ (update_heartbeat (fresh l.alignment l.market_data now) beat).meta =
        shared feeders starts r (ap (λ (m : Named). finds m.name n) same ∙ there)
        ∙ ap (λ (m : Named). (update_heartbeat m.memory beat).meta) same in
      let found =
        ap (shared_memory l.alignment l.market_data open_only) there
        ∙ opened-IsMapped l.alignment l.market_data now beat r mapped left in
      let opens =
        open_loop_ends l.alignment l.market_data attempts n fuel enough (ap is_tried_again found)
          again
        ∙ ap (λ x. after_attempt x waits) found in
      let c_log =
        created-IsGranted l.alignment l.to_observer grants cfg.trader_observer_shm g_log in
      let c_order = created-IsGranted l.alignment l.order grants cfg.order_shm g_order in
      (
        feeders,
        record {
          log = made l.alignment l.to_observer grants cfg.trader_observer_shm;
          order = made l.alignment l.order grants cfg.order_shm;
          market_data = record {
            name = cfg.market_data_shm;
            memory = update_heartbeat (fresh l.alignment l.market_data now) beat;
          };
        },
        starts,
        rw (c_log, c_order, opens) refl,
        sym (ap (λ (m : Named). m.name) same),
        sym (ap (λ (m : Named). update_heartbeat m.memory beat) same),
      )
