-- ===== src/Wire/Frames.antt =====
-- Length-prefixed frames: what AppendLenPrefixed appends, read_len_prefixed_bytes takes off again.
use lance_duckdb.Common.{
  ◌+◌, ◌≤◌, ◌≡◌, true, Bytes, List, [], ◌∷◌, ◌++◌, append_assoc, append-nil, arith, ok, length, All,
  >>=-eq-ok,
}
use native.Mathlib.Decide.{dec_le}
use lance_duckdb.Wire.Writer.{
  append_u32, append_bytes, append_len_prefixed, append_all_len_prefixed, u32_max,
}
use lance_duckdb.Wire.Reader.{read_len_prefixed_bytes, read_string, is_utf8}
use lance_duckdb.Wire.Words.{read_u32-append_u32, read_bytes_exact}

abbrev pub Fits : Bytes → Type 0
Fits s = length s ≤ u32_max

-- A count of four bytes and the bytes themselves.
unfoldable pub frame : Bytes → Bytes
frame s = append_u32 [] (length s) ++ s

unfoldable pub frames : List Bytes → Bytes
frames [] = []
frames (s ∷ ss) = frame s ++ frames ss

pub length-frame : (s : Bytes) → length (frame s) ≡ length s + 4
unfolding frame append_u32
length-frame s = omega arith

-- The writer refuses exactly the strings whose size is no uint32_t.
pub append_len_prefixed-Fits :
    (out s : Bytes) → Fits s → append_len_prefixed out s ≡ ok (out ++ frame s)
unfolding append_len_prefixed append_bytes append_u32 frame
append_len_prefixed-Fits out s h = ground (arith, append_assoc out (append_u32 [] (length s)) s)

pub append_len_prefixed_inv :
    (out s : Bytes) {r : Bytes} → append_len_prefixed out s ≡ ok r → Fits s × (r ≡ out ++ frame s)
append_len_prefixed_inv out s h = elim (dec_le (length s) u32_max) [
  | yes fits ↦ (fits, cc (append_len_prefixed-Fits out s fits))
  | no long ↦ absurd (refused long h)
]
  where
    refused : {r : Bytes} → ¬ Fits s → append_len_prefixed out s ≡ ok r → ⊥
    refused long e = unfold append_len_prefixed in ground arith

pub append_each_inv :
    (out : Bytes) (items : List Bytes) {r : Bytes}
    → append_all_len_prefixed out items ≡ ok r
    → All Fits items × (r ≡ out ++ frames items)
unfolding append_all_len_prefixed frames
append_each_inv out [] h = (tt, cc (append-nil out))
append_each_inv out (s ∷ ss) h =
    let (out', first, later) = >>=-eq-ok (append_len_prefixed out s) _ h in
    let (fits, here) = append_len_prefixed_inv out s first in
    let (rest, there) = append_each_inv out' ss later in
    ((fits, rest), cc (here, there, append_assoc out (frame s) (frames ss)))

pub read_frame :
    (s rest : Bytes) → Fits s → read_len_prefixed_bytes (frame s ++ rest) ≡ ok (s, rest)
unfolding read_len_prefixed_bytes frame
read_frame s rest h = rw (
  append_assoc (append_u32 [] (length s)) s rest,
  read_u32-append_u32 (length s) (s ++ rest) (omega arith),
  read_bytes_exact s rest,
)

pub read_string-frame :
    (s rest : Bytes) → Fits s → is_utf8 s ≡ true → read_string (frame s ++ rest) ≡ ok (s, rest)
unfolding read_string
read_string-frame s rest h u = simp (read_frame s rest h, u)

-- A byte string that was appended with its length is read back, with what follows left over.
pub read_len_prefixed-append :
    (s rest : Bytes) {r : Bytes}
    → append_len_prefixed [] s ≡ ok r
    → read_len_prefixed_bytes (r ++ rest) ≡ ok (s, rest)
read_len_prefixed-append s rest h =
    let (fits, e) = append_len_prefixed_inv [] s h in rw e (read_frame s rest fits)
