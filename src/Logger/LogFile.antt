-- ===== src/Logger/LogFile.antt =====
-- src/Logger/LogFile.cpp, and AppendFile of src/Logger/FileUtil.cpp: the file of the log. The text of
-- the file is the state; `fwrite_unlocked` is taken to store all that it is given.
pub mod Roll
use talib.Prelude.{ℕ, ◌+◌, List, [], ◌++◌, ltb, if◌then◌else◌, length}

pub record AppendFile : Type 0 where
  pub contents : List ℕ
  pub written_bytes : ℕ

-- The constructor opens a file for appending and counts what stands in it.
pub open_file : List ℕ → AppendFile
open_file contents = record { contents = contents; written_bytes = length contents }

pub file_append : List ℕ → AppendFile → AppendFile
file_append logline f = record {
  contents = f.contents ++ logline;
  written_bytes = f.written_bytes + length logline;
}

pub record LogFile : Type 0 where
  pub roll_size : ℕ
  pub file : AppendFile

-- A file that is full is removed and opened again, empty; `remove` is taken to succeed.
pub roll_file : LogFile → LogFile
unfolding open_file
roll_file l = record l {
  file = if ltb l.file.written_bytes l.roll_size then open_file l.file.contents else open_file [];
}

pub append_unlocked : List ℕ → LogFile → LogFile
unfolding file_append roll_file
append_unlocked logline l =
    let l1 : LogFile = record l { file = file_append logline l.file } in
    if ltb l.roll_size l1.file.written_bytes then roll_file l1 else l1
