-- ===== src/Blob/File.antt =====
-- src/lance_blob_filesystem.cpp: LanceBlobFileHandle, its window and the operations of
-- LanceBlobFileSystem on an open handle. Each operation takes the handle's lock for its whole
-- length, so that it is one step on the handle's state; it answers a value or an exception, and the
-- state that it leaves in either case.
pub mod Slices
pub mod Window
pub mod Plain
use lance_duckdb.Common.{
  ℕ, ◌+◌, ◌-◌, ◌*◌, min, Bytes, Bool, true, false, not, [], length, take, drop, ltb, leb, ◌==◌,
  ◌&&◌, ◌||◌, if◌then◌else◌, Result, ok, err, ◌>>=◌, ◌>>◌, throw_if, Exception, invalid_input,
  io_error,
}
use lance_duckdb.Common.Int.{ℤ, pos, negsuc}

-- BLOB_READ_AHEAD
abbrev pub read_ahead : ℕ
read_ahead = 1024 * 1024

-- LanceBlobFileHandle. `is_open` tells whether `blob` is there. The blob itself is behind the FFI.
pub record BlobFile : Type 0 where
  pub is_open : Bool
  pub size : ℕ
  pub cursor : ℕ
  pub window : Bytes
  pub window_start : ℕ
  pub window_size : ℕ

-- lance_blob_read_at at an offset for a count: the bytes that it puts into the buffer, as many as it
-- says that it has read, or what LanceThrowBlobError throws for the error that it leaves.
abbrev pub ReadAt : Type 0
ReadAt = ℕ → ℕ → Result Exception Bytes

-- An answer and the state behind it.
abbrev pub Step : Type 0 → Type 0
Step A = Result Exception A × BlobFile

abbrev pub opened : ℕ → BlobFile
opened size = record {
  is_open = true;
  size = size;
  cursor = 0;
  window = [];
  window_start = 0;
  window_size = 0;
}

unfoldable pub close : BlobFile → BlobFile
close f = record f { is_open = false; window = []; window_size = 0 }

-- RequireOpen, and the rest of an operation.
unfoldable pub require_open : {A : Type 0} → BlobFile → Step A → Step A
require_open f rest = if f.is_open then rest else (err io_error, f)

unfoldable pub read_range : ReadAt → ℕ → ℕ → Result Exception Bytes
read_range read_at count offset = do
  bytes ← read_at offset count
  throw_if (not (length bytes == count)) io_error
  ok bytes

-- `window_size = 0; throw;`
abbrev pub forget_window : BlobFile → BlobFile
forget_window f = record f { window_size = 0 }

-- The new window, and the bytes that are copied out of it.
unfoldable pub fill_window : BlobFile → ℕ → ℕ → Result Exception Bytes → Step Bytes
fill_window f count offset (err e) = (err e, forget_window f)
fill_window f count offset (ok bytes) = (
  ok (take count bytes),
  record f { window = bytes; window_start = offset; window_size = length bytes },
)

-- Whether the window holds the range.
unfoldable pub in_window : BlobFile → ℕ → ℕ → Bool
in_window f count offset =
    leb f.window_start offset
    && leb (offset - f.window_start) f.window_size
    && leb count (f.window_size - (offset - f.window_start))

-- A failed read leaves the window's buffer with some bytes or other; they are kept out of sight by
-- window_size, which is 0.
unfoldable pub read_exact : ReadAt → BlobFile → (buffer : Bool) (count offset : ℕ) → Step Bytes
unfolding in_window
read_exact read_at f buffer count offset =
    if count == 0
    then (ok [], f)
    else if not buffer
    then (err invalid_input, f)
    else if in_window f count offset
    then (ok (take count (drop (offset - f.window_start) f.window)), f)
    else if leb read_ahead count
    then (read_range read_at count offset, forget_window f)
    else fill_window f count offset (read_range read_at (min read_ahead (f.size - offset)) offset)

-- `file.cursor += count`, if nothing was thrown.
unfoldable pub advance : ℕ → Step Bytes → Step Bytes
advance count (ok bytes, f) = (ok bytes, record f { cursor = f.cursor + count })
advance count (err e, f) = (err e, f)

-- LanceBlobFileSystem::Read from the cursor.
unfoldable pub read : ReadAt → BlobFile → Bool → ℤ → Step Bytes
unfolding require_open
read read_at f buffer (negsuc n) = require_open f (err invalid_input, f)
read read_at f buffer (pos bytes) =
    let count = min bytes (f.size - f.cursor) in
    require_open f (advance count (read_exact read_at f buffer count f.cursor))

-- LanceBlobFileSystem::Read at a location.
unfoldable pub read_from : ReadAt → BlobFile → Bool → ℤ → ℕ → Step Bytes
unfolding require_open
read_from read_at f buffer (negsuc n) location = require_open f (err invalid_input, f)
read_from read_at f buffer (pos bytes) location = require_open f (
    if ltb f.size location || ltb (f.size - location) bytes
    then (err invalid_input, f)
    else read_exact read_at f buffer bytes location)

-- The window is kept only where the new position lies in it.
unfoldable pub seek : BlobFile → ℕ → Step (Unit {0})
unfolding require_open
seek f location = require_open f (
    if ltb f.size location
    then (err invalid_input, f)
    else if ltb location f.window_start || leb f.window_size (location - f.window_start)
    then (ok tt, record f { cursor = location; window_size = 0 })
    else (ok tt, record f { cursor = location }))

unfoldable pub seek_position : BlobFile → Step ℕ
unfolding require_open
seek_position f = require_open f (ok f.cursor, f)

unfoldable pub get_file_size : BlobFile → Step ℕ
unfolding require_open
get_file_size f = require_open f (ok f.size, f)
