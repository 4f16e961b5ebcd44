-- ===== src/Agent/Cursor.antt =====
-- loadCursor and saveCursor of internal/runtime/cursor.go.
use rtbh_panel.Common.{
  ℕ, ◌≤◌, ◌<◌, ◌≡◌, refl, false, Bool, Option, none, some, if◌then◌else◌, ltb, arith,
}

-- The cursor file: no path is configured, no file is there, its content cannot be read or is no
-- number, or it holds a number.
pub data CursorFile : Type 0 where
  no_path missing unreadable unparsable : CursorFile
  holds : ℕ → CursorFile

pub data Failure : Type 0 where
  read_cursor parse_cursor rollback : Failure
  create_directory create_temporary secure_temporary write_cursor sync_cursor close_cursor
        replace_cursor open_directory sync_directory :
      Failure

abbrev pub load_cursor : CursorFile → Option Failure × ℕ
load_cursor no_path = (none, 0)
load_cursor missing = (none, 0)
load_cursor unreadable = (some read_cursor, 0)
load_cursor unparsable = (some parse_cursor, 0)
load_cursor (holds n) = (none, n)

-- The steps that replace the file, each of which may fail.
abbrev replace_file : (Failure → Bool) → ℕ → CursorFile → Option Failure × CursorFile
replace_file fails cursor file =
    if fails create_directory
    then (some create_directory, file)
    else if fails create_temporary
    then (some create_temporary, file)
    else if fails secure_temporary
    then (some secure_temporary, file)
    else if fails write_cursor
    then (some write_cursor, file)
    else if fails sync_cursor
    then (some sync_cursor, file)
    else if fails close_cursor
    then (some close_cursor, file)
    else if fails replace_cursor
    then (some replace_cursor, file)
    else if fails open_directory
    then (some open_directory, holds cursor)
    else if fails sync_directory
    then (some sync_directory, holds cursor)
    else (none, holds cursor)

abbrev save_over :
    (Failure → Bool) → ℕ → CursorFile → Option Failure × ℕ → Option Failure × CursorFile
save_over fails cursor file (some e, current) = (some e, file)
save_over fails cursor file (none, current) =
    if ltb cursor current then (some rollback, file) else replace_file fails cursor file

unfoldable pub save_cursor : (Failure → Bool) → ℕ → CursorFile → Option Failure × CursorFile
save_cursor fails cursor no_path = (none, no_path)
save_cursor fails cursor file = save_over fails cursor file (load_cursor file)

-- Whatever fails, saving a cursor never lowers the one that a later load returns.
pub load_cursor-save_cursor_le :
    (fails : Failure → Bool) (cursor : ℕ) (file : CursorFile)
    → (load_cursor file).1 ≤ (load_cursor (save_cursor fails cursor file).1).1
unfolding save_cursor
load_cursor-save_cursor_le fails cursor no_path = omega arith
load_cursor-save_cursor_le fails cursor missing = ground arith
load_cursor-save_cursor_le fails cursor unreadable = omega arith
load_cursor-save_cursor_le fails cursor unparsable = omega arith
load_cursor-save_cursor_le fails cursor (holds n) = ground arith

replace_file_done :
    (fails : Failure → Bool) (cursor : ℕ) (file : CursorFile)
    → ((step : Failure) → fails step ≡ false)
    → replace_file fails cursor file ≡ (none, holds cursor)
replace_file_done fails cursor file works = ground (
  arith,
  works create_directory,
  works create_temporary,
  works secure_temporary,
  works write_cursor,
  works sync_cursor,
  works close_cursor,
  works replace_cursor,
  works open_directory,
  works sync_directory,
)

-- A cursor above the saved one is saved where no step fails.
pub save_cursor_advanced :
    (fails : Failure → Bool)
    → ((step : Failure) → fails step ≡ false)
    → (n : ℕ) (file : CursorFile) → (load_cursor file).0 ≡ none
    → (load_cursor file).1 < n
    → ((save_cursor fails n file).0 ≡ none)
      × ((load_cursor (save_cursor fails n file).1).0 ≡ none)
      × ((load_cursor (save_cursor fails n file).1).1 ≤ n)
unfolding save_cursor
save_cursor_advanced fails works n no_path read before = (refl, refl, omega arith)
save_cursor_advanced fails works n missing read before =
    ground (arith, replace_file_done fails n missing works)
save_cursor_advanced fails works n unreadable read before = absurd (ground arith)
save_cursor_advanced fails works n unparsable read before = absurd (ground arith)
save_cursor_advanced fails works n (holds k) read before =
    ground (arith, replace_file_done fails n (holds k) works)
