-- ===== src/LogFile.antt =====
-- networker/base/LogFile.cpp with the open file of FileUtil.cpp. The directory gives the number of
-- the file that a name has, and the files are bytes by number: a file that is renamed stays open,
-- and one whose name is taken is lost. What the clock says to the check and to the roll are
-- arguments.
pub mod Laws
mod Samples
use network_program_base_fra.Prelude.{
  ℕ, ◌+◌, ◌-◌, ◌*◌, ◌/◌, Bool, true, false, not, Option, none, some, List, [], ◌++◌, length, ltb,
  leb, ◌==◌, if◌then◌else◌, update,
}

abbrev pub roll_per_seconds : ℕ
roll_per_seconds = 60 * 60 * 24

-- The name of a day's log, and the name that a file has once it was rolled in a second; the base
-- name and the host are the same in all.
pub data FileName : Type 0 where
  daily rolled : ℕ → FileName

unfoldable pub same_file : FileName → FileName → Bool
same_file (daily d) (daily e) = d == e
same_file (daily d) (rolled t) = false
same_file (rolled s) (daily d) = false
same_file (rolled s) (rolled t) = s == t

abbrev pub Directory : Type 0
Directory = FileName → Option ℕ

abbrev pub name_file : FileName → Option ℕ → Directory → Directory
name_file n entry dir m = if same_file m n then entry else dir m

-- `rename` replaces a file that has the new name, and fails if there is none of the old one.
abbrev pub move : FileName → FileName → Option ℕ → Directory → Directory
move old new none dir = dir
move old new (some f) dir = name_file new (some f) (name_file old none dir)

unfoldable pub rename : FileName → FileName → Directory → Directory
rename old new dir = move old new (dir old) dir

pub record LogFile : Type 0 where
  pub roll_size : ℕ
  pub flush_interval : ℕ
  pub check_every_n : ℕ
  pub count : ℕ
  pub start_of_period : ℕ
  pub last_roll : ℕ
  pub last_flush : ℕ
  pub file : ℕ
  pub written_bytes : ℕ
  pub flushes : ℕ
  pub directory : Directory
  pub files : ℕ → List ℕ
  pub next_file : ℕ

abbrev pub period : ℕ → ℕ
period now = now / roll_per_seconds * roll_per_seconds

-- `new AppendFile(filename)` opens the file of that name, or makes one.
abbrev pub open_found : FileName → Option ℕ → LogFile → LogFile
open_found n (some f) c = record c { file = f; written_bytes = 0 }
open_found n none c = record c {
  file = c.next_file;
  written_bytes = 0;
  directory = name_file n (some c.next_file) c.directory;
  files = update c.files c.next_file [];
  next_file = c.next_file + 1;
}

unfoldable pub append_file : FileName → LogFile → LogFile
append_file n c = open_found n (c.directory n) c

-- `getLogFileName` renames the file of the day if it is asked to roll.
unfoldable pub get_log_file_name : ℕ → Bool → LogFile → FileName × LogFile
get_log_file_name now is_roll c =
    let filename : FileName = daily (now / roll_per_seconds) in
    (
      filename,
      if is_roll then record c { directory = rename filename (rolled now) c.directory } else c,
    )

unfoldable pub roll_file : ℕ → Bool → LogFile → Bool × LogFile
roll_file now is_roll c =
    let named : FileName × LogFile = get_log_file_name now is_roll c in
    if ltb c.last_roll now
    then (
      true,
      append_file named.0
          (record named.1 { last_roll = now; last_flush = now; start_of_period = period now }),
    )
    else (false, named.1)

-- Every `check_every_n` lines: a new day starts a new file, and the file is flushed in its time.
unfoldable pub check : ℕ → ℕ → LogFile → LogFile
check now roll_now c =
    if not (period now == c.start_of_period)
    then (roll_file roll_now true c).1
    else if ltb c.flush_interval (now - c.last_flush)
    then record c { last_flush = now; flushes = c.flushes + 1 }
    else c

abbrev pub write_line : List ℕ → LogFile → LogFile
write_line line c = record c {
  files = update c.files c.file (c.files c.file ++ line);
  written_bytes = c.written_bytes + length line;
}

unfoldable pub append_unlocked : List ℕ → ℕ → ℕ → LogFile → LogFile
append_unlocked line now roll_now c =
    let longer : LogFile = write_line line c in
    if ltb c.roll_size (c.written_bytes + length line)
    then (roll_file roll_now true longer).1
    else if leb c.check_every_n (c.count + 1)
    then check now roll_now (record longer { count = 0 })
    else record longer { count = c.count + 1 }

-- Both branches of `append`, with and without the lock.
unfoldable pub append : List ℕ → ℕ → ℕ → LogFile → LogFile
append line now roll_now c = append_unlocked line now roll_now c

unfoldable pub flush : LogFile → LogFile
flush c = record c { flushes = c.flushes + 1 }
