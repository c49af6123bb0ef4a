-- ===== src/LogFilesWatchdog/Matching.antt =====
-- match_file (src/log_files_watchdog.cpp). An iterator into a text is what is left of the text, and the
-- reader of times is a parameter: how far it reads a text by a pattern, or a throw.
use barbacoa_server_lib.Prelude.{
  ℕ, zero, suc, ◌+◌, ◌-◌, ◌*◌, ◌%◌, ◌^◌, Bool, true, false, ◌&&◌, ◌||◌, not, List, [], ◌∷◌, Option,
  none, some, length, is_empty, take, drop, ltb, leb, ◌==◌, if◌then◌else◌, bytes_eq,
}
use barbacoa_server_lib.Version.Istream.{is_digit}
use barbacoa_server_lib.LogFilesWatchdog.{LogFilesWatchdogConfig}

unfoldable pub scroll_to_separator : List ℕ → List ℕ
scroll_to_separator [] = []
scroll_to_separator (c ∷ cs) =
    let rest = scroll_to_separator cs in if c == b'%' then c ∷ cs else rest

-- Past the digits at the front.
unfoldable pub skip_digits : List ℕ → List ℕ
skip_digits [] = []
skip_digits (c ∷ cs) = let rest = skip_digits cs in if is_digit c then rest else c ∷ cs

unfoldable pub digits_value : ℕ → List ℕ → ℕ
digits_value value [] = value
digits_value value (c ∷ cs) =
    let rest = digits_value (value * 10 + (c - 48)) cs in if is_digit c then rest else value

unfoldable pub none_zero : List ℕ → Bool
none_zero [] = false
none_zero (c ∷ cs) =
    let rest = not (c == b'0') || none_zero cs in if is_digit c then rest else false

-- `std::atoi(...) < 1`, where atoi is the int that strtol is cut to.
unfoldable pub below_one : ℕ → Bool
below_one value =
    let cut = (if ltb value (2 ^ 63) then value else 2 ^ 63 - 1) % 2 ^ 32 in
    cut == 0 || leb (2 ^ 31) cut

-- `none` is a throw.
unfoldable pub scroll_number : List ℕ → Option (List ℕ)
unfolding skip_digits digits_value none_zero below_one
scroll_number it =
    if below_one (digits_value 0 it) && none_zero it then none else some (skip_digits it)

abbrev pub read_symbol : List ℕ → ℕ × List ℕ
read_symbol [] = (0, [])
read_symbol (c ∷ cs) = (c, cs)

unfoldable pub read_pattern : List ℕ → ℕ × List ℕ
unfolding skip_digits
read_pattern [] = (0, [])
read_pattern (c ∷ cs) = if c == b'%' then read_symbol (skip_digits cs) else (0, c ∷ cs)

-- `std::string { from, to }`, of two iterators into one text.
unfoldable pub between : List ℕ → List ℕ → List ℕ
between from to = take (length from - length to) from

-- The loop that looks for the end of the pattern of the time. A turn takes a character at least, so that
-- the length is enough fuel.
unfoldable pub time_pattern_end : ℕ → ℕ → List ℕ → List ℕ → List ℕ
unfolding scroll_to_separator read_pattern
time_pattern_end zero s it end = end
time_pattern_end (suc fuel) s it end =
    let separator = scroll_to_separator it in
    let read = read_pattern separator in
    let later = time_pattern_end fuel read.0 read.1 separator in
    if is_empty it then it else (if s == b'N' then end else later)

-- The iterators, the pattern of the time, which a folder's files share, and whether no time was read yet.
pub record Scan : Type 0 where
  pub pattern_it : List ℕ
  pub file_it : List ℕ
  pub time_pattern : List ℕ
  pub single_time : Bool

abbrev pub starts_with : List ℕ → List ℕ → Bool
starts_with pattern text = bytes_eq (take (length pattern) text) pattern

abbrev pub on_rest : Scan → List ℕ → List ℕ → List ℕ → List ℕ → Option Scan
on_rest st pred separator rest file_it =
    if is_empty rest
    then some (record st { pattern_it = (read_pattern separator).1; file_it = file_it })
    else (if starts_with rest file_it
        then some (record st { pattern_it = pred; file_it = drop (length rest) file_it })
        else none)

-- case 'N'
abbrev pub on_number : Scan → List ℕ → Option (List ℕ) → Option Scan
on_number st pred none = none
on_number st pred (some file_it) =
    let separator = scroll_to_separator pred in
    on_rest st pred separator (between pred separator) file_it

-- case '%'
abbrev pub on_percent : Scan → List ℕ → ℕ × List ℕ → Option Scan
on_percent st pattern_it (c, file_it) =
    if c == b'%' then some (record st { pattern_it = pattern_it; file_it = file_it }) else none

-- A file of a folder: whether it is a regular one, its name, and its extension if it has one.
pub record File : Type 0 where
  pub is_regular : Bool
  pub name : List ℕ
  pub extension : Option (List ℕ)
  pub sequence_id : ℕ × ℕ × ℕ

abbrev pub extension_is : Option (List ℕ) → List ℕ → Bool
extension_is none e = false
extension_is (some x) e = bytes_eq x e

-- The tests before the loop.
unfoldable pub is_named : LogFilesWatchdogConfig → File → Bool
is_named config file =
    file.is_regular
    && not (is_empty config.log_variable_pattern)
    && (is_empty config.log_name || starts_with config.log_name file.name)
    && (is_empty config.log_extension || extension_is file.extension config.log_extension)

module _ (read_time : List ℕ → List ℕ → Option ℕ) where
  abbrev pub on_time : Scan → List ℕ → List ℕ → Option ℕ → Option Scan
  on_time st pattern_it time_pattern none = none
  on_time st pattern_it time_pattern (some tellg) = some (record {
    pattern_it = pattern_it;
    file_it = drop tellg st.file_it;
    time_pattern = time_pattern;
    single_time = false;
  })

  abbrev pub with_time : Scan → List ℕ → List ℕ → Option Scan
  with_time st pattern_it time_pattern =
      if is_empty time_pattern
      then none
      else on_time st pattern_it time_pattern (read_time time_pattern st.file_it)

  -- default
  unfoldable pub on_other : Scan → List ℕ → Option Scan
  unfolding time_pattern_end read_pattern between
  on_other st separator =
      let read = read_pattern separator in
      let end = time_pattern_end (length separator) read.0 read.1 separator in
      if st.single_time
      then (if is_empty st.time_pattern
          then with_time st end (between separator end)
          else with_time st (drop (length st.time_pattern) separator) st.time_pattern)
      else none

  -- A turn of the loop; `none` is a throw.
  unfoldable pub turn : Scan → Option Scan
  unfolding scroll_to_separator read_pattern scroll_number on_other between
  turn st =
      let separator = scroll_to_separator st.pattern_it in
      let read = read_pattern separator in
      if read.0 == b'N'
      then on_number st read.1 (scroll_number st.file_it)
      else (if read.0 == b'%'
          then on_percent st read.1 (read_symbol st.file_it)
          else (if read.0 == 0
              then some (record st { pattern_it = read.1 })
              else on_other st separator))

  abbrev pub and_again : (Scan → Bool × List ℕ) → List ℕ → Option Scan → Bool × List ℕ
  and_again go time_pattern none = (false, time_pattern)
  and_again go time_pattern (some st) =
      let more = go st in
      if is_empty st.pattern_it || is_empty st.file_it then (true, st.time_pattern) else more

  -- The loop: whether the file matches, and the pattern of the time. A turn takes a character of the
  -- pattern at least.
  unfoldable pub scan : ℕ → Scan → Bool × List ℕ
  unfolding turn
  scan zero st = (false, st.time_pattern)
  scan (suc fuel) st = and_again (λ st'. scan fuel st') st.time_pattern (turn st)

  unfoldable pub match_file : LogFilesWatchdogConfig → List ℕ → File → Bool × List ℕ
  unfolding is_named scan
  match_file config time_pattern file =
      let scanned = scan (suc (length config.log_variable_pattern)) (record {
        pattern_it = config.log_variable_pattern;
        file_it = drop (length config.log_name) file.name;
        time_pattern = time_pattern;
        single_time = true;
      }) in
      if is_named config file then scanned else (false, time_pattern)
