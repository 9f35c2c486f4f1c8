-- ===== src/LogFile/Samples.antt =====
-- The log of networker/base/LogFile.cpp on a line that makes it roll.
use network_program_base_fra.Prelude.{◌≡◌, refl, true, none, some, [], ◌∷◌, arith}
use network_program_base_fra.LogFile.{
  LogFile, daily, rolled, same_file, name_file, rename, append, append_unlocked, append_file,
  get_log_file_name, roll_file,
}
use network_program_base_fra.LogFile.Laws.{Logged, append_log}

-- The file of the first day is open.
abbrev small : LogFile
small = record {
  roll_size = 3;
  flush_interval = 3;
  check_every_n = 2;
  count = 0;
  start_of_period = 0;
  last_roll = 10;
  last_flush = 10;
  file = 0;
  written_bytes = 2;
  flushes = 0;
  directory = name_file (daily 0) (some 0) (λ n. none);
  files = λ f. 1 ∷ 2 ∷ [];
  next_file = 1;
}

append_log_example : Logged (3 ∷ 4 ∷ []) 20 0 small (append (3 ∷ 4 ∷ []) 20 20 small)
unfolding same_file
append_log_example = append_log (3 ∷ 4 ∷ []) 20 20 small (omega arith) refl

rolled_name : (append (3 ∷ 4 ∷ []) 20 20 small).directory (rolled 20) ≡ some 0
unfolding append append_unlocked roll_file get_log_file_name append_file rename same_file
rolled_name = refl

-- Two rolls in one second: the first file that was rolled has no name any more.
rolled_again :
    (roll_file 20 true (append (3 ∷ 4 ∷ []) 20 20 small)).1.directory (rolled 20) ≡ some 1
unfolding append append_unlocked roll_file get_log_file_name append_file rename same_file
rolled_again = refl
