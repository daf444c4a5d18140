-- ===== src/Startup/Processes/Tests.antt =====
-- Tests of the start-up.
use hft_demo.Common.{
  ℕ, zero, suc, ◌≤◌, ◌<◌, ◌≡◌, ◌≢◌, refl, ap, ◌∙◌, subst, inl, true, ◌||◌, arith, [], ◌∷◌, Option,
  none, some, get_or, ◌==◌, if◌then◌else◌,
}
use hft_demo.Common.Bytes.{codes, bytes_eq}
use hft_demo.Memory.{
  open_only, Region, version_conflict, new_meta, get_objects_size, get_size_with_padding,
  object_offsets, shared_memory, lock, attach, update_heartbeat,
}
use hft_demo.Memory.Open.{IsUsable, attached}
use hft_demo.Feeder.{TraderId, at}
use hft_demo.Params.{Params}
use hft_demo.Startup.{
  goes_on, open_loop, create, Layouts, Grants, Finds, TraderMemories, FeederMemories, start_feeder,
  start_trader,
}
use hft_demo.Startup.Opening.{is_tried_again, result_of, open_loop_opens}
use hft_demo.Startup.Processes.{IsGranted, IsMapped, IsShared, feeders, trader_meets_feeder}

abbrev layouts : Layouts
layouts = record {
  alignment = 64;
  to_observer = 64 ∷ 192 ∷ [];
  market_data = 64 ∷ 200 ∷ [];
  order = 64 ∷ 128 ∷ [];
  latency = 64 ∷ 128 ∷ [];
}

abbrev params : Params
params = record {
  feeder_observer_shm = codes "o_feeder";
  executor_observer_shm = codes "o_executor";
  latency_shm = codes "l";
  trader_configs = record {
    of_btc_usdt = record {
      market_data_shm = codes "m_btc";
      trader_observer_shm = codes "o_btc";
      order_shm = codes "s_btc";
    };
    of_eth_usdt = record {
      market_data_shm = codes "m_eth";
      trader_observer_shm = codes "o_eth";
      order_shm = codes "s_eth";
    };
  };
}

-- A region of new bytes.
abbrev region_of : (size : ℕ) → Region
region_of size = record {
  address = 4096;
  size = size;
  mlock_error = none;
  found = record { magic = 0; version = 0; heartbeat_seconds = 0 };
}

-- The size that the first letter of a name stands for.
abbrev size_of : (letter : ℕ) → ℕ
size_of letter = if letter == b'o' then 256 else if letter == b'm' then 320 else 192

abbrev grants : Grants
grants name = record { region = some (region_of (size_of (get_or name 0 0))); now = 9 }

observer-IsGranted :
    IsGranted 64 (64 ∷ 192 ∷ []) (record { region = some (region_of 256); now = 9 })
unfolding get_objects_size get_size_with_padding
observer-IsGranted = record {
  region = region_of 256;
  given = refl;
  usable = record {
    aligned = refl;
    whole = refl;
    locked = refl;
    magic = λ no. cc (no);
    version = λ no. cc (no);
  };
}

market-IsGranted :
    (i : TraderId)
    → IsGranted 64 (64 ∷ 200 ∷ []) (grants (at params.trader_configs i).market_data_shm)
unfolding get_objects_size get_size_with_padding
market-IsGranted TraderId.btc_usdt = record {
  region = region_of 320;
  given = refl;
  usable = record {
    aligned = refl;
    whole = refl;
    locked = refl;
    magic = λ no. cc (no);
    version = λ no. cc (no);
  };
}
market-IsGranted TraderId.eth_usdt = record {
  region = region_of 320;
  given = refl;
  usable = record {
    aligned = refl;
    whole = refl;
    locked = refl;
    magic = λ no. cc (no);
    version = λ no. cc (no);
  };
}

order-IsGranted : IsGranted 64 (64 ∷ 128 ∷ []) (record { region = some (region_of 192); now = 9 })
unfolding get_objects_size get_size_with_padding
order-IsGranted = record {
  region = region_of 192;
  given = refl;
  usable = record {
    aligned = refl;
    whole = refl;
    locked = refl;
    magic = λ no. cc (no);
    version = λ no. cc (no);
  };
}

-- The feeder's memory, with its heartbeat at 12.
abbrev beating : Region
beating = record (region_of 320) { found = record new_meta { heartbeat_seconds = 12 } }

beating-IsMapped : IsMapped 64 (64 ∷ 200 ∷ []) beating
unfolding get_objects_size get_size_with_padding
beating-IsMapped = record { aligned = refl; whole = refl; locked = refl }

-- The first attempt comes too early.
abbrev second_finds : ℕ → Option Region
second_finds zero = none
second_finds (suc i) = some beating

too_early : (j : ℕ) → j < 1 → is_tried_again (result_of 64 (64 ∷ 200 ∷ []) second_finds j) ≡ true
unfolding shared_memory
too_early zero h = refl
too_early (suc j) h = absurd (omega arith)

no_conflict : (j : ℕ) → j < 1 → result_of 64 (64 ∷ 200 ∷ []) second_finds j ≢ inl version_conflict
unfolding shared_memory
no_conflict zero h e = cc (e)
no_conflict (suc j) h e = absurd (omega arith)

beating-IsUsable : IsUsable 64 (64 ∷ 200 ∷ []) open_only beating
unfolding get_objects_size get_size_with_padding
beating-IsUsable = record {
  aligned = refl;
  whole = refl;
  locked = refl;
  magic = λ _. refl;
  version = λ _. refl;
}

open_loop_opens_example :
    (k : ℕ) × (r : Region) × (k ≤ 1)
    × (second_finds k ≡ some r)
    × IsUsable 64 (64 ∷ 200 ∷ []) open_only r
    × (open_loop 64 (64 ∷ 200 ∷ []) second_finds 5 0
        ≡ goes_on (attached 64 (64 ∷ 200 ∷ []) open_only r))
open_loop_opens_example =
    open_loop_opens 64 (64 ∷ 200 ∷ []) second_finds 1 5 beating (omega arith) refl beating-IsUsable
      no_conflict

-- The memory of each symbol is found under its name, and no other.
abbrev finds : Finds
finds name i =
    if bytes_eq name (codes "m_eth") || bytes_eq name (codes "m_btc") then second_finds i else none

starts : start_feeder layouts params grants true ≡ goes_on (feeders layouts params grants)
unfolding start_feeder create update_heartbeat shared_memory lock attach get_objects_size
    get_size_with_padding object_offsets
starts = refl

finds-IsShared :
    (f : FeederMemories)
    → start_feeder layouts params grants true ≡ goes_on f
    → IsShared finds 1 12 (at f.market_data TraderId.eth_usdt)
unfolding update_heartbeat bytes_eq
finds-IsShared f e =
    let same : feeders layouts params grants ≡ f = cc (starts, e) in
    subst (λ (f : FeederMemories). IsShared finds 1 12 (at f.market_data TraderId.eth_usdt)) same
      (λ r there.
        let found : beating ≡ r = cc (there) in
        subst (λ (r : Region). r.found ≡ record new_meta { heartbeat_seconds = 12 }) found refl)

finds-eth : (i : ℕ) → finds (codes "m_eth") i ≡ second_finds i
unfolding bytes_eq
finds-eth i = refl

trader_meets_feeder_example :
    (f : FeederMemories) × (t : TraderMemories) × (start_feeder layouts params grants true
      ≡ goes_on f)
    × (start_trader layouts params TraderId.eth_usdt grants finds 5 ≡ goes_on t)
    × (t.market_data.name ≡ (at f.market_data TraderId.eth_usdt).name)
    × (t.market_data.memory ≡ update_heartbeat (at f.market_data TraderId.eth_usdt).memory 12)
trader_meets_feeder_example =
    trader_meets_feeder layouts params grants TraderId.eth_usdt finds 1 5 12 beating
      observer-IsGranted market-IsGranted observer-IsGranted order-IsGranted (finds-eth 1)
      beating-IsMapped finds-IsShared
      (λ j h.
        ap (λ a. is_tried_again (shared_memory 64 (64 ∷ 200 ∷ []) open_only a)) (finds-eth j)
        ∙ too_early j h)
      (omega arith)
