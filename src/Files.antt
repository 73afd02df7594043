-- ===== src/Files.antt =====
-- The file system as the program sees it: the content of each path, and what an operation may meet.
pub mod Laws
use gemini_worker_go.Prelude.{
  ℕ, Bool, true, false, Option, none, some, List, [], ◌∷◌, ◌++◌, Result, ok, err, take,
  if◌then◌else◌,
}
use gemini_worker_go.Text.{Text, text_eq}

abbrev pub Bytes : Type 0
Bytes = List ℕ

abbrev pub Files : Type 0
Files = List (Text × Bytes)

pub data IoError : Type 0 where
  no_dir not_opened not_written not_read not_found denied : IoError

-- What creating the parent directory, opening a file and writing to it comes to. After `cut n`
-- the first `n` bytes have reached the file.
pub data WriteOutcome : Type 0 where
  written : WriteOutcome
  dir_failed : WriteOutcome
  open_failed : WriteOutcome
  cut : ℕ → WriteOutcome

unfoldable pub read_file : Text → Files → Option Bytes
unfolding text_eq
read_file p [] = none
read_file p ((q, b) ∷ fs) = if text_eq q p then some b else read_file p fs

-- `fs::write`: the file is created, or its content replaced.
unfoldable pub write_file : Text → Bytes → Files → Files
unfolding text_eq
write_file p b [] = (p, b) ∷ []
write_file p b ((q, c) ∷ fs) = if text_eq q p then (q, b) ∷ fs else (q, c) ∷ write_file p b fs

-- `write_all` on a file that is open at `p`.
unfoldable pub append_file : Text → Bytes → Files → Files
unfolding text_eq
append_file p b [] = []
append_file p b ((q, c) ∷ fs) =
    if text_eq q p then (q, c ++ b) ∷ fs else (q, c) ∷ append_file p b fs

unfoldable pub remove_file : Text → Files → Files
unfolding text_eq
remove_file p [] = []
remove_file p ((q, c) ∷ fs) =
    let rest = remove_file p fs in if text_eq q p then rest else (q, c) ∷ rest

-- The directories of a path, then `fs::write`.
unfoldable pub write_at : WriteOutcome → Text → Bytes → Files → Result IoError (Unit {0}) × Files
unfolding write_file
write_at written p b fs = (ok tt, write_file p b fs)
write_at dir_failed p b fs = (err no_dir, fs)
write_at open_failed p b fs = (err not_opened, fs)
write_at (cut n) p b fs = (err not_written, write_file p (take n b) fs)
