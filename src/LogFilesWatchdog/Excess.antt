-- ===== src/LogFilesWatchdog/Excess.antt =====
-- base_max_files_strategy and remove_excess_logs (src/log_files_watchdog.cpp). A folder is the list of its
-- files, in the order in which they are iterated.
use barbacoa_server_lib.Prelude.{
  ℕ, zero, suc, ◌+◌, ◌-◌, ◌≡◌, ◌∙◌, ap, sym, refl, Bool, true, false, ◌&&◌, ◌||◌, not, List, [],
  ◌∷◌, ◌++◌, Option, length, length-drop, take, drop, take-drop, min, ltb, ◌==◌, if◌then◌else◌,
  arith, Bool-cases, inl, inr,
}
use barbacoa_server_lib.LogFilesWatchdog.{LogFilesWatchdogConfig, check_pattern}
use barbacoa_server_lib.LogFilesWatchdog.Matching.{File, match_file}

-- `operator<` of file_sequence_id_type.
unfoldable pub less : ℕ × ℕ × ℕ → ℕ × ℕ × ℕ → Bool
less (a, b, c) (x, y, z) = ltb a x || (a == x && (ltb b y || (b == y && ltb c z)))

-- `emplace` into the multimap: behind the files with the same key.
unfoldable pub emplace : File → List File → List File
unfolding less
emplace file [] = file ∷ []
emplace file (g ∷ files) =
    let later = g ∷ emplace file files in
    if less file.sequence_id g.sequence_id then file ∷ g ∷ files else later

module _ (read_time : List ℕ → List ℕ → Option ℕ) where
  abbrev pub add_matched : Bool → File → List File → List File
  add_matched true file matched_files = emplace file matched_files
  add_matched false file matched_files = matched_files

  -- The loop over the folder.
  unfoldable pub matched : LogFilesWatchdogConfig → List ℕ → List File → List File → List File
  unfolding match_file emplace
  matched config time_pattern [] matched_files = matched_files
  matched config time_pattern (file ∷ files) matched_files =
      let (matches, time_pattern') = match_file read_time config time_pattern file in
      matched config time_pattern' files (add_matched matches file matched_files)

  -- The files that `base_max_files_strategy` hands to its action.
  unfoldable pub base_max_files_strategy : LogFilesWatchdogConfig → List File → List File
  unfolding check_pattern matched
  base_max_files_strategy config files =
      let matched_files = matched config [] files [] in
      if not (check_pattern config.log_variable_pattern)
      then []
      else (if ltb config.max_files (length matched_files)
          then take (length matched_files - config.max_files) matched_files
          else [])

-- No file of the second list is older than `file`.
abbrev pub AreLater : File → List File → Type 0
AreLater file [] = Unit {0}
AreLater file (g ∷ files) = (less g.sequence_id file.sequence_id ≡ false) × AreLater file files

abbrev pub AreSorted : List File → Type 0
AreSorted [] = Unit {0}
AreSorted (file ∷ files) = AreLater file files × AreSorted files

-- No file of the second list is older than one of the first.
abbrev pub AreOlder : List File → List File → Type 0
AreOlder [] kept = Unit {0}
AreOlder (file ∷ files) kept = AreLater file kept × AreOlder files kept

less_asym : (a b : ℕ × ℕ × ℕ) → less a b ≡ true → less b a ≡ false
unfolding less
less_asym (a, b, c) (x, y, z) h = ground arith

less_trans : (a b c : ℕ × ℕ × ℕ) → less a b ≡ true → less c b ≡ false → less c a ≡ false
unfolding less
less_trans (a, b, c) (x, y, z) (u, v, w) h k = ground arith

abbrev pub count : (File → Bool) → List File → ℕ
count p [] = 0
count p (file ∷ files) = let rest = count p files in if p file then suc rest else rest

count-append : (p : File → Bool) (xs ys : List File) → count p (xs ++ ys) ≡ count p xs + count p ys
count-append p [] ys = omega arith
count-append p (x ∷ xs) ys = elim (Bool-cases (p x)) [
  | inl e ↦ rw e (omega (arith, count-append p xs ys))
  | inr e ↦ rw e (omega (arith, count-append p xs ys))
]

emplace-count :
    (p : File → Bool) (file : File) (files : List File)
    → count p (emplace file files) ≡ count p (file ∷ files)
unfolding emplace
emplace-count p file [] = refl
emplace-count p file (g ∷ files) = elim (Bool-cases (less file.sequence_id g.sequence_id)) [
  | inl e ↦ rw e refl
  | inr e ↦ rw e (swapped (p file) (p g) (count p files) _ (emplace-count p file files))
]
  where
    swapped :
        (a b : Bool) (n k : ℕ)
        → k ≡ (if a then suc n else n)
        → (if b then suc k else k)
          ≡ (if a then suc (if b then suc n else n) else (if b then suc n else n))
    swapped a b n k h = ground arith

count-all : (files : List File) → count (λ file. true) files ≡ length files
count-all [] = refl
count-all (file ∷ files) = ap suc (count-all files)

AreLater-trans :
    (f g : File) (files : List File)
    → less f.sequence_id g.sequence_id ≡ true
    → AreLater g files
    → AreLater f files
AreLater-trans f g [] h k = tt
AreLater-trans f g (x ∷ files) h k =
    (less_trans f.sequence_id g.sequence_id x.sequence_id h k.0, AreLater-trans f g files h k.1)

AreLater-emplace :
    (g file : File) (files : List File)
    → less file.sequence_id g.sequence_id ≡ false
    → AreLater g files
    → AreLater g (emplace file files)
unfolding emplace
AreLater-emplace g file [] h k = (h, tt)
AreLater-emplace g file (x ∷ files) h k = elim (Bool-cases (less file.sequence_id x.sequence_id)) [
  | inl e ↦ rw e (h, k)
  | inr e ↦ rw e (k.0, AreLater-emplace g file files h k.1)
]

emplace-AreSorted :
    (file : File) (files : List File) → AreSorted files → AreSorted (emplace file files)
unfolding emplace
emplace-AreSorted file [] h = (tt, tt)
emplace-AreSorted file (g ∷ files) h = elim (Bool-cases (less file.sequence_id g.sequence_id)) [
  | inl e ↦
      rw e ((less_asym file.sequence_id g.sequence_id e, AreLater-trans file g files e h.0), h)
  | inr e ↦ rw e (AreLater-emplace g file files e h.0, emplace-AreSorted file files h.1)
]

AreLater-drop :
    (n : ℕ) (file : File) (files : List File) → AreLater file files → AreLater file (drop n files)
AreLater-drop zero file files h = h
AreLater-drop (suc n) file [] h = tt
AreLater-drop (suc n) file (g ∷ files) h = AreLater-drop n file files h.1

AreSorted-AreOlder :
    (n : ℕ) (files : List File) → AreSorted files → AreOlder (take n files) (drop n files)
AreSorted-AreOlder zero files h = tt
AreSorted-AreOlder (suc n) [] h = tt
AreSorted-AreOlder (suc n) (file ∷ files) h =
    (AreLater-drop n file files h.0, AreSorted-AreOlder n files h.1)

module _ (read_time : List ℕ → List ℕ → Option ℕ) where
  matched-AreSorted :
      (config : LogFilesWatchdogConfig) (time_pattern : List ℕ) (files acc : List File)
      → AreSorted acc
      → AreSorted (matched read_time config time_pattern files acc)
  unfolding matched
  matched-AreSorted config time_pattern [] acc h = h
  matched-AreSorted config time_pattern (file ∷ files) acc h =
      matched-AreSorted config (match_file read_time config time_pattern file).1 files
        (add_matched read_time (match_file read_time config time_pattern file).0 file acc)
        (added (match_file read_time config time_pattern file).0)
    where
      added : (b : Bool) → AreSorted (add_matched read_time b file acc)
      added true = emplace-AreSorted file acc h
      added false = h

  -- The matching files, in the order of the folder.
  unfoldable pub matching : LogFilesWatchdogConfig → List ℕ → List File → List File
  unfolding match_file
  matching config time_pattern [] = []
  matching config time_pattern (file ∷ files) =
      let (matches, time_pattern') = match_file read_time config time_pattern file in
      let rest = matching config time_pattern' files in if matches then file ∷ rest else rest

  matched-count :
      (p : File → Bool) (config : LogFilesWatchdogConfig) (time_pattern : List ℕ)
      (files acc : List File)
      → count p (matched read_time config time_pattern files acc)
        ≡ count p acc + count p (matching config time_pattern files)
  unfolding matched matching
  matched-count p config time_pattern [] acc = omega arith
  matched-count p config time_pattern (file ∷ files) acc =
      matched-count p config (match_file read_time config time_pattern file).1 files
        (add_matched read_time (match_file read_time config time_pattern file).0 file acc)
      ∙ added (match_file read_time config time_pattern file).0
          (matching config (match_file read_time config time_pattern file).1 files)
    where
      added :
          (b : Bool) (rest : List File)
          → count p (add_matched read_time b file acc) + count p rest
            ≡ count p acc + count p (if b then file ∷ rest else rest)
      added true rest = elim (Bool-cases (p file)) [
        | inl e ↦ rw (emplace-count p file acc, e) (omega arith)
        | inr e ↦ rw (emplace-count p file acc, e) (omega arith)
      ]
      added false rest = refl

  matched-length :
      (config : LogFilesWatchdogConfig) (time_pattern : List ℕ) (files acc : List File)
      → length (matched read_time config time_pattern files acc)
        ≡ length acc + length (matching config time_pattern files)
  matched-length config time_pattern files acc =
      sym (count-all (matched read_time config time_pattern files acc))
      ∙ matched-count (λ file. true) config time_pattern files acc
      ∙ omega (arith, count-all acc, count-all (matching config time_pattern files))

  -- The files of a folder that match are those that are handed to the action and those that are kept, each as often as
  -- it is there; no more than max_files are kept, and all of them when there are no more; and none that is kept is
  -- older than one that is handed to the action.
  pub oldest_in_excess :
      (config : LogFilesWatchdogConfig) (files : List File) (p : File → Bool)
      → check_pattern config.log_variable_pattern ≡ true
      → (kept : List File) × (count p (base_max_files_strategy read_time config files)
            + count p kept
          ≡ count p (matching config [] files))
        × (length kept ≡ min config.max_files (length (matching config [] files)))
        × AreOlder (base_max_files_strategy read_time config files) kept
  unfolding base_max_files_strategy
  oldest_in_excess config files p valid =
      let m = matched read_time config [] files [] in
      let n = length m - config.max_files in
      let counted : count p m ≡ count p (matching config [] files) =
        matched-count p config [] files [] ∙ omega arith in
      let all = matched-length config [] files [] in
      elim (Bool-cases (ltb config.max_files (length m))) [
        | inl more ↦
            rw (valid, more)
              (
                drop n m,
                sym (count-append p (take n m) (drop n m)) ∙ ap (count p) (take-drop n m) ∙ counted,
                length-drop n m ∙ ground (arith, all),
                AreSorted-AreOlder n m (matched-AreSorted config [] files [] tt),
              )
        | inr enough ↦ rw (valid, enough) (m, omega (arith, counted), ground (arith, all), tt)
      ]
