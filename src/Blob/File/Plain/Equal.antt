-- ===== src/Blob/File/Plain/Equal.antt =====
-- A blob file whose reads succeed answers every sequence of calls as the plain file does.
use lance_duckdb.Common.{
  ℕ, ◌+◌, ◌-◌, ◌≤◌, ◌≡◌, refl, ap, min, Bytes, Bool, true, false, List, [], ◌∷◌, length, ltb, leb,
  ◌||◌, if◌then◌else◌, Result, ok, err, Exception, io_error, Bool-cases, inl, inr, ◌⊎◌, arith,
}
use lance_duckdb.Common.Int.{ℤ, pos, negsuc}
use lance_duckdb.Blob.File.{
  BlobFile, ReadAt, Step, opened, close, require_open, read_exact, advance, read, read_from, seek,
  seek_position, get_file_size,
}
use lance_duckdb.Blob.File.Window.{IsFile, Delivers, opened-IsFile}
use lance_duckdb.Blob.File.Plain.{
  Call, Answer, with_answer, call, calls, PlainFile, slice_for, plain_seek, if_open, read_on,
  plain_read, plain_read_from, plain_call, plain_calls,
}
use lance_duckdb.Blob.File.Plain.Reliable.{IsReliable, delivered, read_exact-slice_for}

-- What a client can tell of a handle.
abbrev pub plain : BlobFile → PlainFile
plain f = record { is_open = f.is_open; position = f.cursor }

module _ (content : Bytes) (read_at : ReadAt) (reliable : IsReliable content read_at) where
  module _ (f : BlobFile) (is : IsFile content f) where
    -- One call on the file and on its plain view.
    abbrev Agrees : Step Answer → Result Exception Answer × PlainFile → Type 0
    Agrees (r, f') (r', p) = IsFile content f' × (r ≡ r') × (plain f' ≡ p)

    advanced-Agrees :
        (buffer : Bool) (count : ℕ) (s : Step Bytes)
        → f.cursor + count ≤ f.size
        → Delivers content f count f.cursor s
        → s.0 ≡ slice_for content buffer count f.cursor
        → Agrees
            (with_answer Answer.of_bytes (advance count s).0, (advance count s).1)
            (read_on (plain f) count (slice_for content buffer count f.cursor))
    unfolding advance read_on
    advanced-Agrees buffer count (ok b, f') h ((is', same_cursor, same_open), right) e = rw (← e) (
      record {
        sized = is'.sized;
        cursor_le = omega (arith, is'.sized, is.sized);
        window_le = is'.window_le;
        window_has = is'.window_has;
      },
      refl,
      rw (same_cursor, same_open),
    )
    advanced-Agrees buffer count (err x, f') h ((is', same_cursor, same_open), right) e =
        rw (← e) (is', refl, rw (same_cursor, same_open))

    -- An operation that begins with RequireOpen.
    required-Agrees :
        {A : Type 0} (answer : A → Answer) (s : Step A) (q : Result Exception Answer × PlainFile)
        → Agrees (with_answer answer s.0, s.1) q
        → Agrees
            (with_answer answer (require_open f s).0, (require_open f s).1)
            (if_open (plain f) q)
    unfolding require_open if_open
    required-Agrees answer s q h = go f.is_open h
      where
        go :
            (b : Bool)
            → Agrees (with_answer answer s.0, s.1) q
            → Agrees
                (
                  with_answer answer (if b then s else (err io_error, f)).0,
                  (if b then s else (err io_error, f)).1,
                )
                (if b then q else (err io_error, plain f))
        go true h = h
        go false h = (is, refl, refl)

    read-Agrees :
        (buffer : Bool) (n : ℤ)
        → Agrees
            (call read_at f (Call.read_next buffer n))
            (plain_call content (plain f) (Call.read_next buffer n))
    unfolding call read plain_call plain_read
    read-Agrees buffer (negsuc n) = required-Agrees Answer.of_bytes _ _ (is, refl, refl)
    read-Agrees buffer (pos n) =
        let count = min n (f.size - f.cursor) in
        let within : f.cursor + count ≤ f.size = omega (arith, is.cursor_le) in
        required-Agrees Answer.of_bytes (advance count (read_exact read_at f buffer count f.cursor))
          _
          (rw (← is.sized) (
            advanced-Agrees buffer count (read_exact read_at f buffer count f.cursor) within
              (delivered content read_at reliable f is buffer count f.cursor within)
              (read_exact-slice_for content read_at reliable f is buffer count f.cursor within)))

    located-Agrees :
        (buffer : Bool) (n : ℤ) (location : ℕ)
        → Agrees
            (call read_at f (Call.read_located buffer n location))
            (plain_call content (plain f) (Call.read_located buffer n location))
    unfolding call read_from plain_call plain_read_from
    located-Agrees buffer (negsuc n) location = required-Agrees Answer.of_bytes _ _ (is, refl, refl)
    located-Agrees buffer (pos n) location =
        required-Agrees Answer.of_bytes _ _
          (elim (Bool-cases (ltb f.size location || ltb (f.size - location) n)) [
            | inl out ↦
                let longer : ltb f.size (location + n) ≡ true = ground arith in
                rw (out, ← is.sized, longer) (is, refl, refl)
            | inr inside ↦
                let within : location + n ≤ f.size = ground arith in
                let shorter : ltb f.size (location + n) ≡ false = ground arith in
                let ((is', same_cursor, same_open), right) =
                  delivered content read_at reliable f is buffer n location within in
                rw (inside, ← is.sized, shorter)
                  (
                    is',
                    ap (with_answer Answer.of_bytes) (
                        read_exact-slice_for content read_at reliable f is buffer n location
                          within),
                    rw (same_cursor, same_open),
                  )
          ])

    moved-IsFile :
        (location size : ℕ)
        → location ≤ f.size
        → size ≤ f.window_size
        → (size ≡ 0) ⊎ (size ≡ f.window_size)
        → IsFile content (record f { cursor = location; window_size = size })
    moved-IsFile location size h k e = record {
      sized = is.sized;
      cursor_le = h;
      window_le = omega (arith, is.window_le);
      window_has = elim e [ inl none ↦ rw none | inr same ↦ rw same is.window_has ];
    }

    seek-Agrees :
        (location : ℕ)
        → Agrees
            (call read_at f (Call.seek_to location))
            (plain_call content (plain f) (Call.seek_to location))
    unfolding call seek plain_call plain_seek
    seek-Agrees location =
        required-Agrees (λ u. Answer.done) _ _
          (elim (Bool-cases (ltb f.size location)) [
            | inl out ↦ rw (← is.sized, out) (is, refl, refl)
            | inr inside ↦
                let within : location ≤ f.size = ground arith in
                elim (Bool-cases
                  (ltb location f.window_start || leb f.window_size (location - f.window_start))) [
                    | inl away ↦
                        rw (← is.sized, inside, away)
                          (moved-IsFile location 0 within (omega arith) (inl refl), refl, refl)
                    | inr near ↦
                        rw (← is.sized, inside, near)
                          (
                            moved-IsFile location f.window_size within (omega arith) (inr refl),
                            refl,
                            refl,
                          )
                  ]
          ])

    close-IsFile : IsFile content (close f)
    unfolding close
    close-IsFile = record {
      sized = is.sized;
      cursor_le = is.cursor_le;
      window_le = omega (arith, is.window_le);
      window_has = refl;
    }

    call-Agrees : (c : Call) → Agrees (call read_at f c) (plain_call content (plain f) c)
    unfolding call plain_call close seek_position get_file_size
    call-Agrees (Call.read_next buffer n) = read-Agrees buffer n
    call-Agrees (Call.read_located buffer n location) = located-Agrees buffer n location
    call-Agrees (Call.seek_to location) = seek-Agrees location
    call-Agrees Call.tell = required-Agrees Answer.of_number (ok f.cursor, f) _ (is, refl, refl)
    call-Agrees Call.ask_size =
        required-Agrees Answer.of_number (ok f.size, f) _
          (is, ap (λ (n : ℕ). ok (Answer.of_number n)) is.sized, refl)
    call-Agrees Call.shut = (close-IsFile, refl, refl)

  calls-plain :
      (f : BlobFile) (cs : List Call)
      → IsFile content f
      → ((calls read_at f cs).0 ≡ (plain_calls content (plain f) cs).0)
        × (plain (calls read_at f cs).1 ≡ (plain_calls content (plain f) cs).1)
  unfolding calls plain_calls
  calls-plain f [] is = (refl, refl)
  calls-plain f (c ∷ cs) is =
      let (is', same_answer, same_file) = call-Agrees f is c in
      let (answers', file') = calls-plain (call read_at f c).1 cs is' in
      rw (same_answer, ← same_file) (ap (◌∷◌ (plain_call content (plain f) c).0) answers', file')

-- Where the reads behind it succeed, an opened blob file answers every sequence of calls (reads from
-- the cursor and at a location, seeks, questions for position and size, closing, with null buffers
-- and with ranges out of bounds) as a plain file over the bytes of the blob does: what is kept in the
-- window is never seen.
pub calls-opened :
    (content : Bytes) (read_at : ReadAt) (cs : List Call)
    → IsReliable content read_at
    → (calls read_at (opened (length content)) cs).0
      ≡ (plain_calls content (record { is_open = true; position = 0 }) cs).0
calls-opened content read_at cs reliable =
    (calls-plain content read_at reliable (opened (length content)) cs (opened-IsFile content)).0
