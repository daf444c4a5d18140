-- ===== src/Startup/Main.antt =====
-- trader/main.cpp: the arguments of a trader's process.
use hft_demo.Common.{ℕ, List, [], ◌∷◌, Option, none, some, ltb, if◌then◌else◌, length}
use hft_demo.Feeder.{TraderId}
use hft_demo.Params.{parse_trader_id_or_abort}

-- What becomes of the process: it returns 1, it aborts, or it calls `RunTrader`, with a new name
-- where the role is short enough to be one.
pub data Main : Type 0 where
  returns_one aborts : Main
  runs_trader : TraderId → (process_name : Option (List ℕ)) → Main

abbrev run_role : (role : List ℕ) → Option TraderId → Main
run_role role none = aborts
run_role role (some id) = runs_trader id (if ltb (length role) 16 then some role else Option.none)

-- `main`, with `argv`.
unfoldable pub main : (argv : List (List ℕ)) → Main
main [] = returns_one
main (program ∷ []) = returns_one
main (program ∷ role ∷ []) = run_role role (parse_trader_id_or_abort role)
main (program ∷ role ∷ more ∷ args) = returns_one
