-- ===== src/Log/Runs.antt =====
-- A pattern and loggers of the examples, and the theorems at them.
use cczoecpp.Common.{
  ◌⊎◌, ℕ, ◌≡◌, ◌≢◌, refl, List, [], ◌∷◌, none, some, if◌then◌else◌, ◌==◌, arith, inl,
}
use cczoecpp.Common.Text.{bytes_of}
use cczoecpp.Common.Outcome.{done}
use cczoecpp.Log.Formatter.{
  debug, info, LogEvent, FormatItem, message, new_line, string, date_time, init, items, stuck,
}
use cczoecpp.Log.Pattern.{print, IsPrintable}
use cczoecpp.Log.Init.{init-print, init_ends}
use cczoecpp.Log.Logger.{World, get_logger, find_logger, stdout_appender}
use cczoecpp.Log.Manager.{get_logger-IsManaged, IsManaged}

abbrev pattern_items : List FormatItem
pattern_items = date_time (bytes_of "%H") ∷ string (bytes_of ": ") ∷ message ∷ new_line ∷ []

pattern_items-IsPrintable : IsPrintable pattern_items
pattern_items-IsPrintable = (
  (λ h. ground (arith, h), (λ h. ground (arith, h), (λ h. ground (arith, h), tt))),
  (
    (refl, λ h. ground (arith, h), (λ h. ground (arith, h), (λ h. ground (arith, h), tt))),
    (tt, (tt, tt)),
  ),
)

-- The root, the logger 0, and others, which have no appender.
abbrev loggers : World
loggers = record {
  loggers = λ x. record {
    name = bytes_of "some";
    level = debug;
    appenders = (if x == 0 then 0 ∷ [] else []);
    formatter = some (message ∷ []);
    root = (if x == 0 then none else some 0);
  };
  appenders = λ a. stdout_appender;
  next = 2;
  table = (bytes_of "root", 0) ∷ (bytes_of "some", 1) ∷ [];
  manager_root = 0;
  written = [];
}

abbrev event : LogEvent
event = record {
  thread_name = bytes_of "main";
  file = bytes_of "a.cpp";
  line = 3;
  elapse = 0;
  tid = 1;
  fid = 0;
  time = 0;
  content = bytes_of "hi";
  logger = 1;
  logger_name = bytes_of "some";
  level = info;
}

abbrev strftime : List ℕ → ℕ → List ℕ
strftime text time = text

loggers-IsManaged : IsManaged loggers
loggers-IsManaged = (λ x r h. ground (arith, h), refl, omega arith, λ a. inl refl)

init-print_example : init (print pattern_items) ≡ items pattern_items
init-print_example = init-print pattern_items pattern_items-IsPrintable

init_ends_example : init (bytes_of "%m{%") ≢ stuck
init_ends_example = init_ends (bytes_of "%m{%")

get_logger-IsManaged_example :
    (x : ℕ) × (v : World) × (get_logger (bytes_of "new") loggers ≡ done x v)
    × IsManaged v
    × (find_logger (bytes_of "new") v.table ≡ some x)
    × (((find_logger (bytes_of "new") loggers.table ≡ some x) × (v ≡ loggers))
        ⊎ ((x ≡ 2)
            × ((v.loggers x).root ≡ some 0)
            × ((v.loggers x).name ≡ bytes_of "new")
            × ((v.loggers x).appenders ≡ [])))
get_logger-IsManaged_example = get_logger-IsManaged (bytes_of "new") loggers loggers-IsManaged
