-- ===== src/Log/Output.antt =====
-- What the loggers write, and when.
use cczoecpp.Common.{
  ℕ, ◌≡◌, ◌≢◌, refl, List, [], ◌∷◌, ◌++◌, leb, if◌then◌else◌, Option, none, some, true, false,
  arith, Bool-cases, inl, inr, ◌⊎◌,
}
use cczoecpp.Common.Outcome.{Outcome, done}
use cczoecpp.Log.Formatter.{
  Level, unknown, debug, info, warn, error, fatal, LogEvent, FormatItem, format, to_string,
}
use cczoecpp.Log.Logger.{
  rank, from_string, first_level, Sink, stdout, file, Appender, World, stdout_appender_with,
  stdout_appender, append_log, log_rounds, log, log_fmt_level,
}

-- `fromString` reads back what `toString` writes, for each of the six levels.
pub from_string-to_string : (level : Level) → from_string (to_string level) ≡ level
unfolding from_string to_string first_level
from_string-to_string unknown = refl
from_string-to_string debug = refl
from_string-to_string info = refl
from_string-to_string warn = refl
from_string-to_string error = refl
from_string-to_string fatal = refl

-- The formatter that was given to the constructor of a StdoutLogAppender is never used: the appender
-- writes what one without a formatter writes.
pub stdout_appender_ignores :
    (strftime : List ℕ → ℕ → List ℕ) (given of_logger : Option (List FormatItem)) (level : Level)
    (event : LogEvent)
    → append_log strftime (stdout_appender_with given) of_logger level event
      ≡ append_log strftime stdout_appender of_logger level event
unfolding append_log stdout_appender_with
stdout_appender_ignores strftime given of_logger level event = refl

-- What is true of each appender: `m_hasFormatter` says that there is a formatter.
abbrev pub HasIts : Appender → Type 0
HasIts a = (a.has_formatter ≡ false) ⊎ ((made : List FormatItem) × (a.formatter ≡ some made))

-- The root of a logger has no root, and every appender is as its operations leave it.
abbrev pub IsValid : World → Type 0
IsValid w =
    ((a : ℕ) → HasIts (w.appenders a))
    × ((x r : ℕ) → (w.loggers x).root ≡ some r → (w.loggers r).root ≡ none)

module _ (strftime : List ℕ → ℕ → List ℕ) where
  abbrev pub lines_with : Sink → Option (List FormatItem) → LogEvent → List (Sink × List ℕ)
  lines_with sink none event = []
  lines_with sink (some made) event = (sink, format strftime made event) ∷ []

  -- What an appender writes of an event: with its own formatter from its level on, without one that of
  -- the logger, and that to the standard output only.
  abbrev pub lines_of :
      Appender → Option (List FormatItem) → Level → LogEvent → List (Sink × List ℕ)
  lines_of a of_logger level event = elim a.has_formatter [
    | true ↦ (if leb (rank a.level) (rank level) then lines_with a.sink a.formatter event else [])
    | false ↦ elim a.sink [ stdout ↦ lines_with stdout of_logger event | file name ↦ [] ]
  ]

  abbrev pub lines_of_all :
      List ℕ → Option (List FormatItem) → Level → LogEvent → (ℕ → Appender) → List (Sink × List ℕ)
  lines_of_all [] of_logger level event made = []
  lines_of_all (a ∷ rest) of_logger level event made =
      lines_of (made a) of_logger level event ++ lines_of_all rest of_logger level event made

  -- What a logger has to write: from its level on what its appenders write, or if it has none those of
  -- its root, from the root's level on.
  abbrev pub own_lines : ℕ → Level → LogEvent → World → List (Sink × List ℕ)
  own_lines x level event w =
      if leb (rank (w.loggers x).level) (rank level)
      then lines_of_all (w.loggers x).appenders (w.loggers x).formatter level event w.appenders
      else []

  abbrev pub expected : ℕ → Level → LogEvent → World → List (Sink × List ℕ)
  expected x level event w =
      if leb (rank (w.loggers x).level) (rank level)
      then elim (w.loggers x).appenders [
        | a ∷ rest ↦ lines_of_all (a ∷ rest) (w.loggers x).formatter level event w.appenders
        | [] ↦ elim (w.loggers x).root [ none ↦ [] | some root ↦ own_lines root level event w ]
      ]
      else []

  -- `CCZOE_LOG_FMT_LEVEL` writes nothing unless the level is exactly the logger's: below it `log`
  -- drops the event, and above it the test of the macro does, where `CCZOE_LOG_LEVEL` writes.
  pub log_fmt_level_drops :
      (x : ℕ) (event : LogEvent) (w : World)
      → event.logger ≡ x
      → rank event.level ≢ rank (w.loggers x).level
      → log_fmt_level strftime x event.level event w ≡ done tt w
  unfolding log_fmt_level log log_rounds
  log_fmt_level_drops x event w e h =
      elim (Bool-cases (leb (rank event.level) (rank (w.loggers x).level))) [
        | inr above ↦ rw (above, log_fmt_level)
        | inl below ↦
            let dropped : leb (rank (w.loggers x).level) (rank event.level) ≡ false =
              ground (arith, h, below) in
            rw (below, e, dropped, log_fmt_level, log, log_rounds)
      ]
