-- ===== src/Logger.antt =====
-- Logger (include/common/logger.h, src/common/logger.cpp). The console is the list of its lines, a log file
-- the lines appended to it. The local time comes formatted; the milliseconds are formatted here.
pub mod Lines
use dropbox_lite.Prelude.{
  ℕ, ◌+◌, ◌/◌, ◌%◌, ◌≡◌, List, [], ◌∷◌, ◌++◌, Option, none, some, Bool, true, false, Str, codes,
  ltb, if◌then◌else◌,
}
use dropbox_lite.Prelude.Dict.{Dict, get, put}

pub data LogLevel : Type 0 where
  debug info warning error : LogLevel

-- The order of the enumeration.
unfoldable pub rank : LogLevel → ℕ
rank debug = 0
rank info = 1
rank warning = 2
rank error = 3

unfoldable pub level_str : LogLevel → Str
level_str debug = codes "DEBUG"
level_str info = codes "INFO"
level_str warning = codes "WARN"
level_str error = codes "ERROR"

-- `file` is the path of the open log file, `files` what has been appended to each path.
pub record Logger : Type 0 where
  pub level : LogLevel
  pub file : Option Str
  pub console : List Str
  pub files : Dict (List Str)

unfoldable pub start : Logger
start = record { level = info; file = none; console = []; files = [] }

unfoldable pub set_level : LogLevel → Logger → Logger
set_level level s = record s { level = level }

-- The file before is closed; one that cannot be opened is not written.
unfoldable pub set_log_file : Bool → Str → Logger → Logger
set_log_file opens filepath s = record s { file = if opens then some filepath else none }

-- A point in time: the formatted seconds, and the milliseconds, below 1000.
pub record Time : Type 0 where
  pub local_time : Str
  pub ms : ℕ

unfoldable pub log_line : LogLevel → Time → Str → Str
unfolding level_str
log_line level now message =
    now.local_time
    ++ (codes "."
        ++ ((now.ms / 100 % 10 + 48) ∷ (now.ms / 10 % 10 + 48) ∷ (now.ms % 10 + 48) ∷ []
            ++ (codes " [" ++ (level_str level ++ (codes "] " ++ message)))))

abbrev pub lines_of : Option (List Str) → List Str
lines_of none = []
lines_of (some ls) = ls

-- A line at the end of the open file.
unfoldable pub append_line : Option Str → Str → Dict (List Str) → Dict (List Str)
append_line none line files = files
append_line (some path) line files = put files path (lines_of (get files path) ++ line ∷ [])

unfoldable pub log : LogLevel → Str → Time → Logger → Logger
log level message now s =
    let line = log_line level now message in
    if ltb (rank level) (rank s.level)
    then s
    else record s { console = s.console ++ line ∷ []; files = append_line s.file line s.files }

unfoldable pub log_debug : Str → Time → Logger → Logger
log_debug message = log debug message

unfoldable pub log_info : Str → Time → Logger → Logger
log_info message = log info message

unfoldable pub log_warning : Str → Time → Logger → Logger
log_warning message = log warning message

unfoldable pub log_error : Str → Time → Logger → Logger
log_error message = log error message
