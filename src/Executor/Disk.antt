-- ===== src/Executor/Disk.antt =====
-- The file system below src/executor.cpp: `std::filesystem`, file streams, `stat`, `chmod`, `utime`.
-- `faults` tells for each call in turn whether it fails, and none fails after its end. `history` keeps
-- what the files were before each change: with the files themselves, all that a crash can leave.
use caravault.Base.{
  ℕ, Bool, true, false, Option, none, some, List, [], ◌∷◌, ◌++◌, if◌then◌else◌, Text, text_ord,
  get_elem?,
}
use caravault.Base.Map
use caravault.Base.Map.{Map}
use caravault.Base.Map.Erasing.{erase}
use caravault.Base.Set
use caravault.Base.Set.{Set}
use caravault.Manifest.{value_or}
use caravault.Planner.Paths.{ancestor_dirs}

pub record File : Type 0 where
  pub content : Text
  pub mode : ℕ
  pub mtime : ℕ

abbrev pub Files : Type 0
Files = Map Text File

pub record World : Type 0 where
  pub files : Files
  pub dirs : Set Text
  pub faults : List Bool
  pub history : List Files

-- Does the next call fail?
abbrev pub fault : World → Bool
fault w = value_or false (get_elem? w.faults 0)

abbrev pub rest_of : List Bool → List Bool
rest_of [] = []
rest_of (f ∷ fs) = fs

-- The world after a call that changes nothing.
abbrev pub tick : World → World
tick w = record w { faults = rest_of w.faults }

-- The world after a call that makes these the files.
abbrev pub change : Files → World → World
change files w = record w {
  files = files;
  faults = rest_of w.faults;
  history = w.files ∷ w.history;
}

-- `root / rel`
unfoldable pub join : Text → Text → Text
join root rel = root ++ (47 ∷ rel)

-- `fs::exists(path)`, where it does not fail.
unfoldable pub exists : Text → World → Bool
exists path w = elim (Map.lookup path w.files) [ some _ ↦ true | none ↦ Set.contains path w.dirs ]

unfoldable pub insert_dirs : List Text → Set Text → Set Text
insert_dirs [] dirs = dirs
insert_dirs (d ∷ ds) dirs = insert_dirs ds (Set.insert d dirs)

-- `fs::create_directories(path)`, where it does not fail.
unfoldable pub create_directories : Text → World → World
create_directories path w = record (tick w) {
  dirs = insert_dirs (path ∷ ancestor_dirs path) w.dirs;
}

abbrev pub truncated : Option File → File
truncated none = record { content = []; mode = 420; mtime = 0 }
truncated (some f) = record f { content = [] }

-- `std::ofstream out(path, std::ios::trunc)`: a file that is there keeps its mode.
unfoldable pub truncate : Text → World → World
truncate path w = change (Map.insert path (truncated (Map.lookup path w.files)) w.files) w

abbrev pub append_found : Text → Text → Option File → World → World
append_found path bytes none w = tick w
append_found path bytes (some f) w =
    change (Map.insert path (record f { content = f.content ++ bytes }) w.files) w

-- `out.write(bytes)`
unfoldable pub append : Text → Text → World → World
append path bytes w = append_found path bytes (Map.lookup path w.files) w

abbrev pub rename_found : Text → Text → Option File → World → World
rename_found from to none w = tick w
rename_found from to (some f) w = change (Map.insert to f (erase from w.files)) w

-- `fs::rename(from, to)`, where it does not fail: one change.
unfoldable pub rename_file : Text → Text → World → World
rename_file from to w = rename_found from to (Map.lookup from w.files) w

-- `fs::remove(path)`; where it fails it changes nothing.
unfoldable pub remove_file : Text → World → World
remove_file path w = if fault w then tick w else change (erase path w.files) w

abbrev pub set_found : File → Text → Option File → World → World
set_found g path none w = tick w
set_found g path (some f) w =
    change (Map.insert path (record f { mode = g.mode; mtime = g.mtime }) w.files) w

-- Permissions and times of one file set on another.
unfoldable pub set_metadata : File → Text → World → World
set_metadata g path w = set_found g path (Map.lookup path w.files) w
