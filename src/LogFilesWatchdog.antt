-- ===== src/LogFilesWatchdog.antt =====
-- log_files_watchdog (src/log_files_watchdog.cpp): which files of a log are too many. The reader of
-- times is a parameter, and so is what the file system says of a file.
pub mod Matching
pub mod Excess
use barbacoa_server_lib.Prelude.{
  ℕ, Bool, true, false, ◌&&◌, not, List, [], ◌∷◌, ◌++◌, Option, none, some, length, leb, ◌==◌,
  if◌then◌else◌, Result, ok, err, logic_error,
}
use barbacoa_server_lib.Web.TextStream.{find_char}

unfoldable pub normalize_extension : List ℕ → List ℕ
normalize_extension [] = []
normalize_extension (c ∷ cs) = if c == b'.' then c ∷ cs else b'.' ∷ c ∷ cs

abbrev pub is_found : Option ℕ → Bool
is_found none = false
is_found (some i) = true

unfoldable pub check_pattern : List ℕ → Bool
unfolding find_char
check_pattern pattern = leb 2 (length pattern) && is_found (find_char b'%' pattern)

pub record LogFilesWatchdogConfig : Type 0 where
  pub log_name : List ℕ
  pub log_variable_pattern : List ℕ
  pub log_extension : List ℕ
  pub max_files : ℕ

-- The constructor; the path of the folder and the command of a packer are not here.
unfoldable pub log_files_watchdog_config :
    List ℕ → List ℕ → List ℕ → ℕ → Result LogFilesWatchdogConfig
unfolding check_pattern normalize_extension
log_files_watchdog_config log_name pattern extension max_files =
    let made : Result LogFilesWatchdogConfig = ok (record {
      log_name = log_name;
      log_variable_pattern = pattern;
      log_extension = normalize_extension extension;
      max_files = max_files;
    }) in
    if not (check_pattern pattern)
    then err logic_error
    else (if max_files == 0 then err logic_error else made)
