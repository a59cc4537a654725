-- ===== src/Blob/File/Window.antt =====
-- The window of a blob file: what its invariant says, and that ReadExact answers the bytes of the
-- blob, from the window or not, and keeps the invariant, whatever the reads behind it do.
use lance_duckdb.Common.{
  ℕ, ◌+◌, ◌-◌, ◌≤◌, ◌≡◌, refl, sym, ap, ◌∙◌, min, Bytes, Bool, true, false, not, length, take, drop,
  leb, ◌==◌, if◌then◌else◌, Result, ok, err, >>=-eq-ok, throw_if-ok, ok-injective, Exception,
  invalid_input, io_error, Bool-cases, ==_eq, ◌⊎◌, inl, inr, arith, subst,
}
use lance_duckdb.Common.Int.{pos}
use lance_duckdb.Blob.File.{
  BlobFile, ReadAt, Step, opened, read_ahead, read_range, forget_window, fill_window, in_window,
  read_exact, advance, require_open, read,
}
use lance_duckdb.Blob.File.Slices.{drop-drop, take-drop-take, take_all}

-- A handle on the blob `content`.
pub record IsFile (content : Bytes) (f : BlobFile) : Type 0 where
  pub sized : f.size ≡ length content
  pub cursor_le : f.cursor ≤ f.size
  pub window_le : f.window_start + f.window_size ≤ f.size
  pub window_has : take f.window_size f.window ≡ take f.window_size (drop f.window_start content)

-- A read within the blob that fills its buffer fills it with the bytes of the blob. A read may fail
-- or stop short.
abbrev pub Serves : Bytes → ReadAt → Type 0
Serves content read_at =
    (offset count : ℕ) (bytes : Bytes)
    → offset + count ≤ length content
    → read_at offset count ≡ ok bytes
    → length bytes ≡ count
    → bytes ≡ take count (drop offset content)

-- The invariant holds, and the cursor and the handle are as they were.
abbrev pub Kept : Bytes → BlobFile → BlobFile → Type 0
Kept content f f' = IsFile content f' × (f'.cursor ≡ f.cursor) × (f'.is_open ≡ f.is_open)

abbrev pub Delivers : Bytes → BlobFile → ℕ → ℕ → Step Bytes → Type 0
Delivers content f count offset (r, f') =
    Kept content f f' × ((b : Bytes) → r ≡ ok b → b ≡ take count (drop offset content))

pub opened-IsFile : (content : Bytes) → IsFile content (opened (length content))
opened-IsFile content = record {
  sized = refl;
  cursor_le = omega arith;
  window_le = omega arith;
  window_has = refl;
}

module _ (content : Bytes) (f : BlobFile) (is : IsFile content f) where
  pub forget-IsFile : IsFile content (forget_window f)
  forget-IsFile = record {
    sized = is.sized;
    cursor_le = is.cursor_le;
    window_le = omega (arith, is.window_le);
    window_has = refl;
  }

  -- A range in the window, and where it is in the blob.
  window_slice :
      (count k : ℕ)
      → k + count ≤ f.window_size
      → take count (drop k f.window) ≡ take count (drop (f.window_start + k) content)
  window_slice count k h =
      sym (take-drop-take f.window_size k count f.window h)
      ∙ ap (λ (w : Bytes). take count (drop k w)) is.window_has
      ∙ take-drop-take f.window_size k count (drop f.window_start content) h
      ∙ ap (take count) (drop-drop k f.window_start content)

  module _ (read_at : ReadAt) (serves : Serves content read_at) where
    read_range-slice :
        (count offset : ℕ) (b : Bytes)
        → offset + count ≤ length content
        → read_range read_at count offset ≡ ok b
        → (length b ≡ count) × (b ≡ take count (drop offset content))
    unfolding read_range
    read_range-slice count offset b h e =
        let (bytes, got, e₁) = >>=-eq-ok (read_at offset count) _ e in
        let (complete, e₂) = throw_if-ok (not (length bytes == count)) io_error _ e₁ in
        let same = ok-injective e₂ in
        let full : length bytes ≡ count = ground arith in
        subst (λ (t : Bytes). (length t ≡ count) × (t ≡ take count (drop offset content))) same
          (full, serves offset count bytes h got full)

    fill_window-Delivers :
        (count offset n : ℕ)
        → count ≤ n
        → offset + n ≤ length content
        → Delivers content f count offset (fill_window f count offset (read_range read_at n offset))
    unfolding fill_window
    fill_window-Delivers count offset n h k = filled (read_range read_at n offset) refl
      where
        filled :
            (r : Result Exception Bytes)
            → read_range read_at n offset ≡ r
            → Delivers content f count offset (fill_window f count offset r)
        filled (err e) eq = ((forget-IsFile, refl, refl), λ b e. cc)
        filled (ok bytes) eq =
            let (full, same) = read_range-slice n offset bytes k eq in
            (
              (
                record {
                  sized = is.sized;
                  cursor_le = is.cursor_le;
                  window_le = omega (arith, is.sized);
                  window_has =
                      take_all (length bytes) bytes refl
                      ∙ same
                      ∙ ap (λ (m : ℕ). take m (drop offset content)) (sym full);
                },
                refl,
                refl,
              ),
              λ b e.
                  sym (ok-injective e)
                  ∙ ap (take count) same
                  ∙ take-drop-take n 0 count (drop offset content) (omega arith),
            )

    -- The three ways in which a read of at least one byte into a buffer goes.
    served-Delivers :
        (count offset : ℕ)
        → offset + count ≤ f.size
        → Delivers content f count offset (
            if in_window f count offset
            then (ok (take count (drop (offset - f.window_start) f.window)), f)
            else if leb read_ahead count
            then (read_range read_at count offset, forget_window f)
            else fill_window f count offset
                (read_range read_at (min read_ahead (f.size - offset)) offset))
    unfolding in_window
    served-Delivers count offset h = elim (Bool-cases (in_window f count offset)) [
      | inl inside ↦
          let k = offset - f.window_start in
          let at : f.window_start + k ≡ offset = ground arith in
          rw inside (
            (is, refl, refl),
            λ b e.
                sym (ok-injective e)
                ∙ window_slice count k (ground arith)
                ∙ ap (λ (o : ℕ). take count (drop o content)) at,
          )
      | inr outside ↦ elim (Bool-cases (leb read_ahead count)) [
        | inl large ↦
            rw (outside, large)
              (
                (forget-IsFile, refl, refl),
                λ b e. (read_range-slice count offset b (omega (arith, is.sized)) e).1,
              )
        | inr small ↦
            rw (outside, small)
              (fill_window-Delivers count offset (min read_ahead (f.size - offset)) (ground arith)
                (omega (arith, is.sized)))
      ]
    ]

    pub read_exact-Delivers :
        (buffer : Bool) (count offset : ℕ)
        → offset + count ≤ f.size
        → Delivers content f count offset (read_exact read_at f buffer count offset)
    unfolding read_exact
    read_exact-Delivers buffer count offset h = elim (Bool-cases (count == 0)) [
      | inl none ↦ rw none (
        (is, refl, refl),
        λ b e.
            sym (ok-injective e)
            ∙ ap (λ (n : ℕ). take n (drop offset content)) (sym (==_eq count 0 none)),
      )
      | inr some ↦ rw some (given buffer)
    ]
      where
        given :
            (b : Bool)
            → Delivers content f count offset (
                if not b
                then (err invalid_input, f)
                else if in_window f count offset
                then (ok (take count (drop (offset - f.window_start) f.window)), f)
                else if leb read_ahead count
                then (read_range read_at count offset, forget_window f)
                else fill_window f count offset
                    (read_range read_at (min read_ahead (f.size - offset)) offset))
        given true = served-Delivers count offset h
        given false = ((is, refl, refl), λ b e. cc)

-- The bytes of the range with the cursor moved over them, or an exception with the cursor as it was.
abbrev pub Answers : Bytes → BlobFile → ℕ → Step Bytes → Type 0
Answers content f count (r, f') =
    ((r ≡ ok (take count (drop f.cursor content))) × (f'.cursor ≡ f.cursor + count))
    ⊎ ((e : Exception) × (r ≡ err e) × (f'.cursor ≡ f.cursor))

advance-Answers :
    (content : Bytes) (f : BlobFile) (count : ℕ) (s : Step Bytes)
    → f.cursor + count ≤ length content
    → Delivers content f count f.cursor s
    → IsFile content (advance count s).1 × Answers content f count (advance count s)
unfolding advance
advance-Answers content f count (err e, f') h ((is', same_cursor, same_open), right) =
    (is', inr (e, refl, same_cursor))
advance-Answers content f count (ok b, f') h ((is', same_cursor, same_open), right) = (
  record {
    sized = is'.sized;
    cursor_le = omega (arith, is'.sized);
    window_le = is'.window_le;
    window_has = is'.window_has;
  },
  inl (ap ok (right b refl), omega (arith, same_cursor)),
)

-- A read from the cursor of an open file, where a read of the blob may fail or stop short but fills a
-- buffer with nothing else than the bytes of the blob: it answers the bytes from the cursor on, as
-- many as were asked for or as there are, and the cursor moves over them; or it throws, and the cursor
-- stays. In either case the handle is one that later reads can be made on.
pub read-Answers :
    (content : Bytes) (read_at : ReadAt) (f : BlobFile) (buffer : Bool) (n : ℕ)
    → IsFile content f
    → Serves content read_at
    → f.is_open ≡ true
    → IsFile content (read read_at f buffer (pos n)).1
      × Answers content f (min n (f.size - f.cursor)) (read read_at f buffer (pos n))
unfolding read require_open
read-Answers content read_at f buffer n is serves is_open =
    let count = min n (f.size - f.cursor) in
    let within : f.cursor + count ≤ f.size = omega (arith, is.cursor_le) in
    simp is_open (
      advance-Answers content f count (read_exact read_at f buffer count f.cursor)
        (omega (arith, is.sized))
        (read_exact-Delivers content f is read_at serves buffer count f.cursor within))
