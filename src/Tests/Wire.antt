-- ===== src/Tests/Wire.antt =====
-- The wire format.
use lance_duckdb.Common.{◌≡◌, refl, [], ◌∷◌, ok}
use lance_duckdb.Wire.Writer.{append_len_prefixed, append_u32, append_bytes}
use lance_duckdb.Wire.Reader.{read_len_prefixed_bytes}
use lance_duckdb.Wire.Frames.{read_len_prefixed-append}

read_len_prefixed-append_example :
    read_len_prefixed_bytes (2 ∷ 0 ∷ 0 ∷ 0 ∷ b'a' ∷ b'b' ∷ 9 ∷ []) ≡ ok (b'a' ∷ b'b' ∷ [], 9 ∷ [])
unfolding append_len_prefixed append_u32 append_bytes
read_len_prefixed-append_example = read_len_prefixed-append (b'a' ∷ b'b' ∷ []) (9 ∷ []) refl
