-- ===== src/Blob/File/Plain.antt =====
-- The contract of a blob file: a plain read-only file, which is the bytes of the blob and a position.
pub mod Reliable
pub mod Equal
use lance_duckdb.Common.{
  ℕ, ◌+◌, ◌-◌, min, Bytes, Bool, true, false, not, List, [], ◌∷◌, length, take, drop, ltb, ◌==◌,
  if◌then◌else◌, Result, ok, err, ◌>>=◌, Exception, invalid_input, io_error,
}
use lance_duckdb.Common.Int.{ℤ, pos, negsuc}
use lance_duckdb.Blob.File.{
  BlobFile, ReadAt, Step, close, read, read_from, seek, seek_position, get_file_size,
}

-- The calls that a client makes on a handle; `buffer` is whether the buffer is not null.
pub data Call : Type 0 where
  read_next : (buffer : Bool) → ℤ → Call
  read_located : (buffer : Bool) → ℤ → ℕ → Call
  seek_to : ℕ → Call
  tell ask_size shut : Call

pub data Answer : Type 0 where
  of_bytes : Bytes → Answer
  of_number : ℕ → Answer
  done : Answer

abbrev pub with_answer {ℓ} :
    {A : Type ℓ} → (A → Answer) → Result Exception A → Result Exception Answer
with_answer f r = r >>= λ a. ok (f a)

unfoldable pub call : ReadAt → BlobFile → Call → Step Answer
call read_at f (Call.read_next buffer n) =
    let s = read read_at f buffer n in (with_answer Answer.of_bytes s.0, s.1)
call read_at f (Call.read_located buffer n location) =
    let s = read_from read_at f buffer n location in (with_answer Answer.of_bytes s.0, s.1)
call read_at f (Call.seek_to location) =
    let s = seek f location in (with_answer (λ u. Answer.done) s.0, s.1)
call read_at f Call.tell = let s = seek_position f in (with_answer Answer.of_number s.0, s.1)
call read_at f Call.ask_size = let s = get_file_size f in (with_answer Answer.of_number s.0, s.1)
call read_at f Call.shut = (ok Answer.done, close f)

-- The answers to a sequence of calls, and the state behind them.
unfoldable pub calls : ReadAt → BlobFile → List Call → List (Result Exception Answer) × BlobFile
calls read_at f [] = ([], f)
calls read_at f (c ∷ cs) =
    let s = call read_at f c in let rest = calls read_at s.1 cs in (s.0 ∷ rest.0, rest.1)

pub record PlainFile : Type 0 where
  pub is_open : Bool
  pub position : ℕ

-- The bytes of a range, for a buffer that is there wherever the range is not empty.
unfoldable pub slice_for : Bytes → Bool → ℕ → ℕ → Result Exception Bytes
slice_for content buffer count offset =
    if count == 0
    then ok []
    else if buffer
    then ok (take count (drop offset content))
    else err invalid_input

-- The position moves over what was read.
unfoldable pub read_on :
    PlainFile → ℕ → Result Exception Bytes → Result Exception Answer × PlainFile
read_on p count (ok s) = (ok (Answer.of_bytes s), record p { position = p.position + count })
read_on p count (err e) = (err e, p)

unfoldable pub plain_read : Bytes → PlainFile → Bool → ℤ → Result Exception Answer × PlainFile
plain_read content p buffer (negsuc n) = (err invalid_input, p)
plain_read content p buffer (pos n) =
    let count = min n (length content - p.position) in
    read_on p count (slice_for content buffer count p.position)

unfoldable pub plain_read_from :
    Bytes → PlainFile → Bool → ℤ → ℕ → Result Exception Answer × PlainFile
plain_read_from content p buffer (negsuc n) location = (err invalid_input, p)
plain_read_from content p buffer (pos n) location =
    if ltb (length content) (location + n)
    then (err invalid_input, p)
    else (with_answer Answer.of_bytes (slice_for content buffer n location), p)

unfoldable pub plain_seek : Bytes → PlainFile → ℕ → Result Exception Answer × PlainFile
plain_seek content p location =
    if ltb (length content) location
    then (err invalid_input, p)
    else (ok Answer.done, record p { position = location })

-- A closed file answers every call but close with an I/O error.
unfoldable pub if_open :
    PlainFile → Result Exception Answer × PlainFile → Result Exception Answer × PlainFile
if_open p rest = if p.is_open then rest else (err io_error, p)

unfoldable pub plain_call : Bytes → PlainFile → Call → Result Exception Answer × PlainFile
plain_call content p (Call.read_next buffer n) = if_open p (plain_read content p buffer n)
plain_call content p (Call.read_located buffer n location) =
    if_open p (plain_read_from content p buffer n location)
plain_call content p (Call.seek_to location) = if_open p (plain_seek content p location)
plain_call content p Call.tell = if_open p (ok (Answer.of_number p.position), p)
plain_call content p Call.ask_size = if_open p (ok (Answer.of_number (length content)), p)
plain_call content p Call.shut = (ok Answer.done, record p { is_open = false })

unfoldable pub plain_calls :
    Bytes → PlainFile → List Call → List (Result Exception Answer) × PlainFile
plain_calls content p [] = ([], p)
plain_calls content p (c ∷ cs) =
    let s = plain_call content p c in
    let rest = plain_calls content s.1 cs in (s.0 ∷ rest.0, rest.1)
