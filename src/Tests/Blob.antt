-- ===== src/Tests/Blob.antt =====
-- A blob of three bytes.
use lance_duckdb.Common.{◌≡◌, refl, Bytes, true, [], ◌∷◌, take, drop, ok, err, min, io_error}
use lance_duckdb.Common.Int.{pos}
use lance_duckdb.Blob.File.{ReadAt, opened, read}
use lance_duckdb.Blob.File.Window.{IsFile, Answers, opened-IsFile, read-Answers}
use lance_duckdb.Blob.File.Plain.{Call, calls, plain_calls}
use lance_duckdb.Blob.File.Plain.Equal.{calls-opened}

abbrev content : Bytes
content = b'a' ∷ b'b' ∷ b'c' ∷ []

abbrev whole : ReadAt
whole offset count = ok (take count (drop offset content))

-- No read comes through.
abbrev broken : ReadAt
broken offset count = err io_error

read-Answers_example :
    IsFile content (read broken (opened 3) true (pos 9)).1
    × Answers content (opened 3) (min 9 3) (read broken (opened 3) true (pos 9))
read-Answers_example =
    read-Answers content broken (opened 3) true 9 (opened-IsFile content) (λ o c b h e l. cc) refl

calls-opened_example :
    (calls whole (opened 3) (
      Call.read_next true (pos 2)
      ∷ Call.read_next true (pos 2)
      ∷ Call.seek_to 1
      ∷ Call.read_next true (pos 1)
      ∷ Call.read_located true (pos 9) 1
      ∷ Call.shut
      ∷ Call.tell
      ∷ [])).0
    ≡ (plain_calls content
        (record { is_open = true; position = 0 })
        (Call.read_next true (pos 2)
          ∷ Call.read_next true (pos 2)
          ∷ Call.seek_to 1
          ∷ Call.read_next true (pos 1)
          ∷ Call.read_located true (pos 9) 1
          ∷ Call.shut
          ∷ Call.tell
          ∷ [])).0
calls-opened_example = calls-opened content whole _ (λ o c h. refl)
