-- ===== src/Tests/Logs.antt =====
-- A concrete folder of log files.
use barbacoa_server_lib.Prelude.{
  ℕ, ◌+◌, ◌≡◌, refl, Bool, true, List, [], ◌∷◌, Option, none, some, codes, length, min,
}
use barbacoa_server_lib.LogFilesWatchdog.{LogFilesWatchdogConfig, check_pattern}
use barbacoa_server_lib.LogFilesWatchdog.Matching.{File, match_file}
use barbacoa_server_lib.LogFilesWatchdog.Excess.{
  count, AreOlder, matching, base_max_files_strategy, oldest_in_excess,
}

abbrev app : LogFilesWatchdogConfig
app = record {
  log_name = codes "app_";
  log_variable_pattern = codes "app_%N.log";
  log_extension = codes ".log";
  max_files = 1;
}

abbrev no_time : List ℕ → List ℕ → Option ℕ
no_time pattern text = none

abbrev newer : File
newer = record {
  is_regular = true;
  name = codes "app_2.log";
  extension = some (codes ".log");
  sequence_id = (20, 0, 2);
}

abbrev older : File
older = record {
  is_regular = true;
  name = codes "app_1.log";
  extension = some (codes ".log");
  sequence_id = (10, 0, 1);
}

app_matches : match_file no_time app [] older ≡ (true, [])
unfolding match_file
app_matches = refl

excess : base_max_files_strategy no_time app (newer ∷ older ∷ []) ≡ older ∷ []
unfolding base_max_files_strategy
excess = refl

app_pattern : check_pattern app.log_variable_pattern ≡ true
unfolding check_pattern
app_pattern = refl

abbrev any_file : File → Bool
any_file file = true

oldest_in_excess_example :
    (kept : List File) × (count any_file (base_max_files_strategy no_time app (newer ∷ older ∷ []))
        + count any_file kept
      ≡ count any_file (matching no_time app [] (newer ∷ older ∷ [])))
    × (length kept ≡ min 1 (length (matching no_time app [] (newer ∷ older ∷ []))))
    × AreOlder (base_max_files_strategy no_time app (newer ∷ older ∷ [])) kept
oldest_in_excess_example = oldest_in_excess no_time app (newer ∷ older ∷ []) any_file app_pattern
