-- ===== src/Logger.antt =====
-- HotPathLogger of lib/interprocess/hot_path_logger.hpp and .cpp: a message is put together in a
-- buffer of fixed size and written to the observer's ring.
pub mod File
pub mod Line
pub mod Store
use hft_demo.Common.{
  ℕ, zero, suc, ◌+◌, ◌-◌, ◌/◌, ◌%◌, min, Bool, true, false, List, [], ◌∷◌, ltb, leb, ◌==◌,
  if◌then◌else◌, length, take, set, sub32,
}
use hft_demo.Common.Int.{ℤ, pos, negsuc}
use hft_demo.Market.{LogLevel, ObserverData, message_size, observer_length}
use hft_demo.Ring.{Ring, write}

-- `true_size_`
abbrev pub true_size : ℕ
true_size = message_size - 1

-- `HotPathLogger::Formatter`; `msg_pos` is the distance of `msg_pos_` from the message's start.
pub record Formatter : Type 0 where
  pub timestamp_ns : ℕ
  pub level : LogLevel
  pub message : List ℕ
  pub msg_pos : ℕ

-- `GetFormatter` at the time `now`, in storage that holds the bytes `storage`.
unfoldable pub get_formatter : (storage : List ℕ) → (now : ℕ) → LogLevel → Formatter
get_formatter storage now level = record {
  timestamp_ns = now;
  level = level;
  message = storage;
  msg_pos = 0;
}

-- The bytes copied to a place of the message.
abbrev pub store : List ℕ → ℕ → List ℕ → List ℕ
store message at [] = message
store message at (c ∷ cs) = store (set message at c) (at + 1) cs

-- `operator<<` of a literal.
unfoldable pub put_literal : Formatter → List ℕ → Formatter
put_literal f str =
    let free_space = sub32 true_size f.msg_pos in
    let count = min (length str) free_space in
    record f { message = store f.message f.msg_pos (take count str); msg_pos = f.msg_pos + count }

-- `operator<<` of a pointer to bytes, up to a zero byte or the end of `str`.
unfoldable pub put_text : Formatter → List ℕ → Formatter
put_text f [] = f
put_text f (c ∷ str) =
    let rest =
      put_text (record f { message = set f.message f.msg_pos c; msg_pos = f.msg_pos + 1 }) str in
    if c == 0 then f else if ltb f.msg_pos true_size then rest else f

-- `operator<<` of a number behind the call of std::to_chars, which writes `digits` where they fit,
-- and else leaves some bytes `scraps` and an error.
unfoldable pub put_digits : Formatter → (digits scraps : List ℕ) → Formatter
put_digits f digits scraps =
    if leb (length digits) (true_size - f.msg_pos)
    then record f {
      message = store f.message f.msg_pos digits;
      msg_pos = f.msg_pos + length digits;
    }
    else record f { message = store f.message f.msg_pos (take (true_size - f.msg_pos) scraps) }

-- The decimal digits of a number of at most `fuel` digits, before those of `rest`.
abbrev pub decimal : (fuel n : ℕ) → (rest : List ℕ) → List ℕ
decimal zero n rest = rest
decimal (suc fuel) n rest =
    let more = decimal fuel (n / 10) ((48 + n % 10) ∷ rest) in
    if ltb n 10 then (48 + n) ∷ rest else more

-- What std::to_chars writes of a 64-bit integer.
abbrev pub to_chars : ℤ → List ℕ
to_chars (pos n) = decimal 20 n []
to_chars (negsuc n) = b'-' ∷ decimal 20 (n + 1) []

-- `operator<<` of an integer.
unfoldable pub put_integer : Formatter → ℤ → (scraps : List ℕ) → Formatter
put_integer f n scraps = put_digits f (to_chars n) scraps

-- `operator<<` of `Endl`: the ring it leaves, and the formatter.
unfoldable pub put_endl : Formatter → Ring ObserverData → Formatter × Ring ObserverData
put_endl f ring =
    let message = set f.message f.msg_pos 0 in
    (
      record f { message = message; msg_pos = 0 },
      write observer_length ring
          (record { timestamp_ns = f.timestamp_ns; level = f.level; message = message }),
    )
