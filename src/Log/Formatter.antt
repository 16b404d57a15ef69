-- ===== src/Log/Formatter.antt =====
-- cczoecpp/Log/LogFormatter.{h,cpp} and LogEvent.{h,cpp}: the pattern of a formatter and what it prints.
--
-- A pattern is its bytes. `m_pattern[size]` is the zero behind it; reading further is `overrun`.
-- Each round of the loop takes a byte at least, so the length is fuel enough. `localtime_r` with
-- `strftime` is a parameter.
use cczoecpp.Common.{
  ℕ, zero, suc, List, [], ◌∷◌, ◌++◌, length, ◌==◌, if◌then◌else◌, Option, none, some, true, false,
}
use cczoecpp.Common.Text.{bytes_of, decimal}

pub data Level : Type 0 where
  unknown debug info warn error fatal : Level

-- `logger_name` is the name of the logger that the event points to.
pub record LogEvent : Type 0 where
  pub thread_name : List ℕ
  pub file : List ℕ
  pub line : ℕ
  pub elapse : ℕ
  pub tid : ℕ
  pub fid : ℕ
  pub time : ℕ
  pub content : List ℕ
  pub logger : ℕ
  pub logger_name : List ℕ
  pub level : Level

pub data FormatItem : Type 0 where
  message level name thread_name thread_id fiber_id filename line new_line tab elapse : FormatItem
  date_time string : List ℕ → FormatItem

unfoldable pub to_string : Level → List ℕ
to_string debug = bytes_of "DEBUG"
to_string info = bytes_of "INFO"
to_string warn = bytes_of "WARN"
to_string error = bytes_of "ERROR"
to_string fatal = bytes_of "FATAL"
to_string unknown = bytes_of "UNKNOWN"

module _ (strftime : List ℕ → ℕ → List ℕ) where
  unfoldable pub format_item : FormatItem → LogEvent → List ℕ
  format_item message event = event.content
  format_item FormatItem.level event = to_string event.level
  format_item name event = event.logger_name
  format_item FormatItem.thread_name event = event.thread_name
  format_item thread_id event = decimal event.tid
  format_item fiber_id event = decimal event.fid
  format_item filename event = event.file
  format_item FormatItem.line event = decimal event.line
  format_item new_line event = 10 ∷ []
  format_item tab event = 9 ∷ []
  format_item FormatItem.elapse event = decimal event.elapse
  format_item (date_time pattern) event = strftime pattern event.time
  format_item (string text) event = text

  unfoldable pub format : List FormatItem → LogEvent → List ℕ
  format [] event = []
  format (item ∷ items) event = format_item item event ++ format items event

-- What `init` comes to: the items, or a read behind the end of the pattern.
pub data Parsed : Type 0 where
  items : List FormatItem → Parsed
  overrun stuck : Parsed

abbrev pub default_date : FormatItem
default_date = date_time (bytes_of "%Y-%m-%d %H:%M:%S")

-- The `switch`, but for `%d`.
unfoldable pub simple_item : ℕ → Option FormatItem
simple_item c =
    if c == 84
    then some tab
    else if c == 116
    then some thread_id
    else if c == 78
    then some FormatItem.thread_name
    else if c == 70
    then some fiber_id
    else if c == 112
    then some FormatItem.level
    else if c == 99
    then some name
    else if c == 102
    then some filename
    else if c == 108
    then some FormatItem.line
    else if c == 109
    then some message
    else if c == 110
    then some new_line
    else none

-- The text up to `}`, and what stands behind it.
unfoldable pub until_brace : List ℕ → Option (List ℕ × List ℕ)
until_brace [] = none
until_brace (c ∷ rest) = elim (c == 125) [
  | true ↦ some ([], rest)
  | false ↦ elim (until_brace rest) [ none ↦ none | some (text, behind) ↦ some (c ∷ text, behind) ]
]

-- `%d`, with what stands behind it: the item, and what is left.
unfoldable pub date_item : List ℕ → FormatItem × List ℕ
date_item [] = (default_date, [])
date_item (c ∷ rest) = elim (c == 123) [
  | false ↦ (default_date, c ∷ rest)
  | true ↦ elim (until_brace rest) [
    | none ↦ (default_date, c ∷ rest)
    | some ([], behind) ↦ (default_date, c ∷ rest)
    | some (x ∷ text, behind) ↦ (date_time (x ∷ text), behind)
  ]
]

-- What follows `%`: the items to push, and what is left.
unfoldable pub directive : List ℕ → List FormatItem × List ℕ
directive [] = ([], [])
directive (c ∷ rest) = elim (c == 100) [
  | true ↦ let (item, behind) = date_item rest in (item ∷ [], behind)
  | false ↦ (elim (simple_item c) [ none ↦ [] | some item ↦ item ∷ [] ], rest)
]

-- The inner loop: the text up to the next `%`. It reads on until it finds one.
unfoldable pub until_percent : List ℕ → Option (List ℕ × List ℕ)
until_percent [] = none
until_percent (c ∷ rest) = elim (c == 37) [
  | true ↦ some ([], c ∷ rest)
  | false ↦ elim (until_percent rest) [
    | none ↦ none
    | some (text, behind) ↦ some (c ∷ text, behind)
  ]
]

abbrev pub push : List FormatItem → Parsed → Parsed
push pushed (items more) = items (pushed ++ more)
push pushed overrun = overrun
push pushed stuck = stuck

unfoldable pub init_loop : ℕ → List ℕ → Parsed
init_loop zero [] = items []
init_loop zero (c ∷ rest) = stuck
init_loop (suc fuel) [] = items []
init_loop (suc fuel) (c ∷ rest) = elim (c == 37) [
  | true ↦ push (directive rest).0 (init_loop fuel (directive rest).1)
  | false ↦ elim (until_percent rest) [
    | none ↦ overrun
    | some (text, behind) ↦ push (string (c ∷ text) ∷ []) (init_loop fuel behind)
  ]
]

unfoldable pub init : List ℕ → Parsed
init pattern = init_loop (length pattern) pattern
