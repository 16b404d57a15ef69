-- ===== src/Log/Logger.antt =====
-- cczoecpp/Log/Logger.{h,cpp}, LogAppender.{h,cpp} and LoggerManager.{h,cpp}: the levels, the loggers with
-- their appenders, and the table of loggers.
--
-- Loggers and appenders are shared objects, known by their numbers. What they write is a list, the
-- last at the end. The root of a logger has no root of its own, so two rounds of `log` are enough.
-- A file that does not open writes nothing; opening is left out.
use cczoecpp.Common.{
  ℕ, zero, suc, List, [], ◌∷◌, ◌++◌, ◌==◌, leb, ◌&&◌, if◌then◌else◌, Option, none, some, Bool, true,
  false,
}
use cczoecpp.Common.Text.{bytes_of, same_bytes}
use cczoecpp.Common.Outcome.{Outcome, done, fault, stuck, ◌>>=◌}
use cczoecpp.Log.Formatter.{
  Level, unknown, debug, info, warn, error, fatal, LogEvent, FormatItem, format, init, items,
  overrun,
}

-- The values of the enumeration.
abbrev pub rank : Level → ℕ
rank unknown = 0
rank debug = 1
rank info = 2
rank warn = 3
rank error = 4
rank fatal = 5

abbrev pub level_table : List (List ℕ × Level)
level_table =
    (bytes_of "debug", debug)
    ∷ (bytes_of "info", info)
    ∷ (bytes_of "warn", warn)
    ∷ (bytes_of "error", error)
    ∷ (bytes_of "fatal", fatal)
    ∷ (bytes_of "DEBUG", debug)
    ∷ (bytes_of "INFO", info)
    ∷ (bytes_of "WARN", warn)
    ∷ (bytes_of "ERROR", error)
    ∷ (bytes_of "FATAL", fatal)
    ∷ []

-- The tests of `fromString`, one after another.
unfoldable pub first_level : List (List ℕ × Level) → List ℕ → Level
first_level [] str = unknown
first_level ((s, level) ∷ table) str = if same_bytes str s then level else first_level table str

unfoldable pub from_string : List ℕ → Level
from_string str = first_level level_table str

pub data Sink : Type 0 where
  stdout : Sink
  file : List ℕ → Sink

pub record Appender : Type 0 where
  pub sink : Sink
  pub level : Level
  pub formatter : Option (List FormatItem)
  pub has_formatter : Bool

pub record Logger : Type 0 where
  pub name : List ℕ
  pub level : Level
  pub appenders : List ℕ
  pub formatter : Option (List FormatItem)
  pub root : Option ℕ

-- Every logger and appender that was made, the table `m_loggers`, `m_root`, and what was written.
pub record World : Type 0 where
  pub loggers : ℕ → Logger
  pub appenders : ℕ → Appender
  pub next : ℕ
  pub table : List (List ℕ × ℕ)
  pub manager_root : ℕ
  pub written : List (Sink × List ℕ)

abbrev pub put {ℓ} : {A : Type ℓ} → ℕ → A → (ℕ → A) → ℕ → A
put x a f y = if y == x then a else f y

unfoldable pub set_formatter : Option (List FormatItem) → Appender → Appender
set_formatter formatter a = elim formatter [
  | none ↦ record a { formatter = none; has_formatter = false }
  | some made ↦ record a { formatter = some made; has_formatter = true }
]

abbrev pub stdout_appender : Appender
stdout_appender = record { sink = stdout; level = debug; formatter = none; has_formatter = false }

-- The constructor with a formatter sets `m_formatter` only.
unfoldable pub stdout_appender_with : Option (List FormatItem) → Appender
stdout_appender_with formatter = record stdout_appender { formatter = formatter }

unfoldable pub file_appender : List ℕ → Appender
file_appender filename = record stdout_appender { sink = file filename }

unfoldable pub add_appender : ℕ → ℕ → World → World
add_appender x a w = record w {
  loggers =
      put x (record (w.loggers x) { appenders = (w.loggers x).appenders ++ a ∷ [] }) w.loggers;
}

unfoldable pub erase_first : ℕ → List ℕ → List ℕ
erase_first a [] = []
erase_first a (b ∷ rest) = if b == a then rest else b ∷ erase_first a rest

unfoldable pub del_appender : ℕ → ℕ → World → World
del_appender x a w = record w {
  loggers =
      put x (record (w.loggers x) { appenders = erase_first a (w.loggers x).appenders }) w.loggers;
}

unfoldable pub clear_appender : ℕ → World → World
clear_appender x w = record w {
  loggers = put x (record (w.loggers x) { appenders = [] }) w.loggers;
}

module _ (strftime : List ℕ → ℕ → List ℕ) where
  -- What an appender writes; the pointer `m_formatter` is dereferenced.
  unfoldable pub written_with :
      Sink → Option (List FormatItem) → LogEvent → Option (List (Sink × List ℕ))
  written_with sink none event = none
  written_with sink (some made) event = some ((sink, format strftime made event) ∷ [])

  -- `StdoutLogAppender::log` and `FileLogAppender::log`; `none` is a null pointer dereferenced.
  unfoldable pub append_log :
      Appender → Option (List FormatItem) → Level → LogEvent → Option (List (Sink × List ℕ))
  append_log a of_logger level event =
      if a.has_formatter && leb (rank a.level) (rank level)
      then written_with a.sink a.formatter event
      else if a.has_formatter
      then some []
      else elim a.sink [
        | file filename ↦ some []
        | stdout ↦ elim of_logger [
          | none ↦ some []
          | some made ↦ written_with stdout (some made) event
        ]
      ]

  -- The loop over the appenders.
  unfoldable pub log_loop :
      List ℕ → Option (List FormatItem) → Level → LogEvent → World → Outcome World (Unit {0})
  log_loop [] of_logger level event w = done tt w
  log_loop (a ∷ rest) of_logger level event w =
      elim (append_log (w.appenders a) of_logger level event) [
        | none ↦ fault
        | some lines ↦
            log_loop rest of_logger level event (record w { written = w.written ++ lines })
      ]

  unfoldable pub log_rounds : ℕ → ℕ → Level → LogEvent → World → Outcome World (Unit {0})
  log_rounds zero x level event w = stuck
  log_rounds (suc fuel) x level event w = elim (leb (rank (w.loggers x).level) (rank level)) [
    | false ↦ done tt w
    | true ↦ elim (w.loggers x).appenders [
      | a ∷ rest ↦ log_loop (a ∷ rest) (w.loggers x).formatter level event w
      | [] ↦ elim (w.loggers x).root [
        | none ↦ done tt w
        | some root ↦ log_rounds fuel root level event w
      ]
    ]
  ]

  unfoldable pub log : ℕ → Level → LogEvent → World → Outcome World (Unit {0})
  log x level event w = log_rounds 2 x level event w

  -- `CCZOE_LOG_LEVEL`, with the event that `LogEventWrap` hands over, and `CCZOE_LOG_FMT_LEVEL`.
  unfoldable pub log_level : ℕ → Level → LogEvent → World → Outcome World (Unit {0})
  log_level x level event w =
      if leb (rank (w.loggers x).level) (rank level)
      then log event.logger event.level event w
      else done tt w

  unfoldable pub log_fmt_level : ℕ → Level → LogEvent → World → Outcome World (Unit {0})
  log_fmt_level x level event w =
      if leb (rank level) (rank (w.loggers x).level)
      then log event.logger event.level event w
      else done tt w

abbrev pub default_pattern : List ℕ
default_pattern = bytes_of "%d{%Y-%m-%d %H:%M:%S}%T%t%T%N%T%F%T[%p]%T[%c]%T%f:%l%T%m%n"

-- The constructor of a logger, whose formatter parses the pattern.
unfoldable pub make_logger : List ℕ → Option ℕ → World → Outcome World ℕ
make_logger name root w = elim (init default_pattern) [
  | items made ↦ done w.next (record w {
    loggers =
        put w.next
          (record {
            name = name;
            level = debug;
            appenders = [];
            formatter = some made;
            root = root;
          })
          w.loggers;
    next = suc w.next;
  })
  | overrun ↦ fault
  | _ ↦ stuck
]

abbrev pub find_logger : List ℕ → List (List ℕ × ℕ) → Option ℕ
find_logger name [] = none
find_logger name ((k, x) ∷ table) = if same_bytes name k then some x else find_logger name table

-- `m_loggers[name] = logger`, for a name that is not in the table or is replaced.
abbrev pub assign_logger : List ℕ → ℕ → List (List ℕ × ℕ) → List (List ℕ × ℕ)
assign_logger name x [] = (name, x) ∷ []
assign_logger name x ((k, y) ∷ table) =
    if same_bytes name k then (k, x) ∷ table else (k, y) ∷ assign_logger name x table

-- The constructor of the manager: a root with an appender to the standard output.
unfoldable pub new_manager : World → Outcome World (Unit {0})
new_manager = make_logger (bytes_of "root") none >>= λ root w.
    done tt
      (record (add_appender root w.next
        (record w { appenders = put w.next stdout_appender w.appenders })) {
          next = suc w.next;
          table = assign_logger (bytes_of "root") root [];
          manager_root = root;
        })

unfoldable pub get_logger : List ℕ → World → Outcome World ℕ
get_logger name w = elim (find_logger name w.table) [
  | some x ↦ done x w
  | none ↦
      (make_logger name (some w.manager_root) >>= λ x v.
      done x (record v { table = assign_logger name x v.table }))
        w
]
