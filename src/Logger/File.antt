-- ===== src/Logger/File.antt =====
-- lib/log_common.hpp, lib/log_common.cpp, lib/logger.hpp and lib/logger.cpp: the text of a line in a
-- log file, and the logger of the observer's own log. A file is the list of its bytes; `format` is
-- std::format of a time, which is a number of nanoseconds.
use hft_demo.Common.{ℕ, ◌≡◌, refl, ap, sym, ◌∙◌, List, [], ◌∷◌, ◌++◌, append_assoc}
use hft_demo.Common.Bytes.{codes}
use hft_demo.Market.{LogLevel, ObserverData, info, warning, error}
use hft_demo.Logger.Line.{c_str}

-- `operator<<` of a level.
unfoldable pub level_text : LogLevel → List ℕ
level_text info = codes "[INFO]"
level_text warning = codes "[WARNING]"
level_text error = codes "[ERROR]"

-- The names of the levels.
abbrev pub level_name : LogLevel → List ℕ
level_name info = codes "INFO"
level_name warning = codes "WARNING"
level_name error = codes "ERROR"

module _ (format : ℕ → List ℕ) where
  -- `WriteLog`; `message` ends at its first zero byte.
  unfoldable pub write_log : (s : List ℕ) (time : ℕ) → LogLevel → (message : List ℕ) → List ℕ
  write_log s time level message =
      s ++ (format time ++ (b' ' ∷ (level_text level ++ (b' ' ∷ (c_str message ++ (b'\n' ∷ []))))))

  -- A line as it is to be: the time, the level in brackets, and the text.
  abbrev pub line : (time : ℕ) → LogLevel → (text : List ℕ) → List ℕ
  line time level text =
      format time ++ (codes " [" ++ (level_name level ++ (codes "] " ++ (text ++ codes "\n"))))

  abbrev pub line_of : ObserverData → List ℕ
  line_of o = line o.timestamp_ns o.level (c_str o.message)

  abbrev pub lines_of : List ObserverData → List ℕ
  lines_of [] = []
  lines_of (o ∷ os) = line_of o ++ lines_of os

  pub lines_of-append :
      (os os' : List ObserverData) → lines_of (os ++ os') ≡ lines_of os ++ lines_of os'
  lines_of-append [] os' = refl
  lines_of-append (o ∷ os) os' =
      ap (λ s. line_of o ++ s) (lines_of-append os os')
      ∙ sym (append_assoc (line_of o) (lines_of os) (lines_of os'))

  -- `WriteLog` adds the line of its message to what is there.
  pub write_log-line :
      (s : List ℕ) (time : ℕ) (level : LogLevel) (message : List ℕ)
      → write_log s time level message ≡ s ++ line time level (c_str message)
  unfolding write_log level_text
  write_log-line s time info message = refl
  write_log-line s time warning message = refl
  write_log-line s time error message = refl

-- `Logger::Formatter`: the level, and what its buffer holds.
pub record FileFormatter : Type 0 where
  pub level : LogLevel
  pub buffer : List ℕ

-- `Logger::GetFormatter`
abbrev pub get_file_formatter : LogLevel → FileFormatter
get_file_formatter level = record { level = level; buffer = [] }

-- `operator<<` of a value, whose text is `data_text`.
unfoldable pub put_data : FileFormatter → (data_text : List ℕ) → FileFormatter
put_data f data_text = record f { buffer = f.buffer ++ data_text }

module _ (format : ℕ → List ℕ) where
  -- `operator<<` of `Endl`, with `Logger::Write` at the time `now`.
  unfoldable pub put_file_endl : (now : ℕ) → FileFormatter → List ℕ → FileFormatter × List ℕ
  put_file_endl now f file = (record f { buffer = [] }, write_log format file now f.level f.buffer)
