-- ===== src/Core/Logger.antt =====
-- core/logger.cpp: Logger. What reaches stderr and its buffer is a text; the rendered local time is an
-- argument. Write failures are ignored by the source and left out.
use yoru_speech.Common.{ℕ, leb, ltb, [], ◌∷◌, ◌++◌, Text, lit, if◌then◌else◌}

pub data LogLevel : Type 0 where
  debug info warn error : LogLevel

-- The order of the enumerators.
abbrev pub rank : LogLevel → ℕ
rank debug = 0
rank info = 1
rank warn = 2
rank error = 3

-- g_min_level, what std::clog has buffered, and what was flushed to stderr.
pub record Journal : Type 0 where
  pub min_level : LogLevel
  pub flushed : Text
  pub buffered : Text

unfoldable pub new_journal : Journal
new_journal = record { min_level = info; flushed = []; buffered = [] }

unfoldable pub level_label : LogLevel → Text
level_label debug = lit "DEBUG"
level_label info = lit "INFO"
level_label warn = lit "WARN"
level_label error = lit "ERROR"

unfoldable pub set_level : LogLevel → Journal → Journal
set_level level j = record j { min_level = level }

unfoldable pub level : Journal → LogLevel
level j = j.min_level

-- One line, newline included.
unfoldable pub log_line : Text → LogLevel → Text → Text → Text
log_line component level timestamp message =
    (91 ∷ timestamp)
    ++ (lit "] ["
        ++ (level_label level ++ (lit "] [" ++ (component ++ (lit "] " ++ (message ++ 10 ∷ []))))))

-- Logger::log of the logger with that component.
unfoldable pub log : Text → LogLevel → Text → Text → Journal → Journal
log component level timestamp message j =
    let text = j.buffered ++ log_line component level timestamp message in
    if ltb (rank level) (rank j.min_level)
    then j
    else if leb (rank warn) (rank level)
    then record j { flushed = j.flushed ++ text; buffered = [] }
    else record j { buffered = text }
