-- ===== src/Logger/LogFile/Roll.antt =====
-- What a log file keeps.
use talib.Prelude.{
  ℕ, ◌+◌, ◌≤◌, ◌≡◌, List, [], ◌++◌, arith, leb, if◌then◌else◌, length, length-append,
}
use talib.Logger.LogFile.{LogFile, append_unlocked}

-- The count is that of the file, and the file is not above its size.
pub record IsCounted (l : LogFile) : Type 0 where
  pub count : l.file.written_bytes ≡ length l.file.contents
  pub within : length l.file.contents ≤ l.roll_size

-- An append to a counted file keeps it counted and within its size. Either the file then ends with
-- the line, behind all that it had; or the line did not fit, and the file is empty: what it had is
-- lost, and the line too.
pub append_unlocked_lem :
    (logline : List ℕ) (l : LogFile)
    → IsCounted l
    → IsCounted (append_unlocked logline l)
      × ((append_unlocked logline l).file.contents ≡ (
          if leb (length l.file.contents + length logline) l.roll_size
          then l.file.contents ++ logline
          else []))
unfolding append_unlocked
append_unlocked_lem logline l h =
    ground (arith, h.count, h.within, length-append l.file.contents logline)
