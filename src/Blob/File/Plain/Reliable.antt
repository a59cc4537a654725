-- ===== src/Blob/File/Plain/Reliable.antt =====
-- Reads of a blob that succeed: what ReadExact answers then.
use lance_duckdb.Common.{
  ℕ, ◌+◌, ◌-◌, ◌≤◌, ◌≡◌, refl, sym, ap, ◌∙◌, min, Bytes, Bool, true, false, [], length, take, drop,
  leb, ◌==◌, ok, ok-injective, Bool-cases, inl, inr, arith, ==_refl,
}
use lance_duckdb.Blob.File.{
  BlobFile, ReadAt, read_ahead, read_range, in_window, fill_window, read_exact,
}
use lance_duckdb.Blob.File.Slices.{length-slice}
use lance_duckdb.Blob.File.Window.{IsFile, Serves, Delivers, read_exact-Delivers}
use lance_duckdb.Blob.File.Plain.{slice_for}

-- Every read within the blob succeeds, with the bytes of the blob.
abbrev pub IsReliable : Bytes → ReadAt → Type 0
IsReliable content read_at =
    (offset count : ℕ)
    → offset + count ≤ length content
    → read_at offset count ≡ ok (take count (drop offset content))

module _ (content : Bytes) (read_at : ReadAt) (reliable : IsReliable content read_at) where
  reliable-Serves : Serves content read_at
  reliable-Serves offset count bytes h got full =
      sym (ok-injective (sym (reliable offset count h) ∙ got))

  read_range_ok :
      (count offset : ℕ)
      → offset + count ≤ length content
      → read_range read_at count offset ≡ ok (take count (drop offset content))
  unfolding read_range
  read_range_ok count offset h =
      simp (reliable offset count h, length-slice count offset content h, ==_refl count)

  module _ (f : BlobFile) (is : IsFile content f) where
    pub delivered :
        (buffer : Bool) (count offset : ℕ)
        → offset + count ≤ f.size
        → Delivers content f count offset (read_exact read_at f buffer count offset)
    delivered = read_exact-Delivers content f is read_at reliable-Serves

    fills :
        (count offset : ℕ)
        → offset + count ≤ f.size
        → (b : Bytes) × ((fill_window f count offset
              (read_range read_at (min read_ahead (f.size - offset)) offset)).0
            ≡ ok b)
    unfolding fill_window
    fills count offset h =
        let n = min read_ahead (f.size - offset) in
        (
          take count (take n (drop offset content)),
          rw (read_range_ok n offset (omega (arith, is.sized))),
        )

    answers :
        (count offset : ℕ)
        → offset + count ≤ f.size
        → (b : Bytes) × ((read_exact read_at f true count offset).0 ≡ ok b)
    unfolding read_exact
    answers count offset h = elim (Bool-cases (count == 0)) [
      | inl none ↦ rw none ([], refl)
      | inr some ↦ elim (Bool-cases (in_window f count offset)) [
        | inl inside ↦ rw (some, inside) (_, refl)
        | inr outside ↦ elim (Bool-cases (leb read_ahead count)) [
          | inl large ↦
              rw (some, outside, large) (_, read_range_ok count offset (omega (arith, is.sized)))
          | inr small ↦ rw (some, outside, small) (fills count offset h)
        ]
      ]
    ]

    pub read_exact-slice_for :
        (buffer : Bool) (count offset : ℕ)
        → offset + count ≤ f.size
        → (read_exact read_at f buffer count offset).0 ≡ slice_for content buffer count offset
    unfolding read_exact slice_for
    read_exact-slice_for true count offset h = elim (Bool-cases (count == 0)) [
      | inl none ↦ rw none
      | inr some ↦
          let (b, e) = answers count offset h in
          let (_, right) = delivered true count offset h in
          e ∙ ap ok (right b e) ∙ rw (some, slice_for)
    ]
    read_exact-slice_for false count offset h = elim (Bool-cases (count == 0)) [
      | inl none ↦ rw none
      | inr some ↦ rw some
    ]
