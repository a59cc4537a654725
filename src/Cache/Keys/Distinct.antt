-- ===== src/Cache/Keys/Distinct.antt =====
-- Two datasets have the same key only where they are the same dataset, opened in the same way.
use lance_duckdb.Common.{
  ℕ, zero, suc, ◌+◌, ◌*◌, ◌-◌, ◌/◌, ◌%◌, ◌≤◌, ◌<◌, ◌≡◌, ◌≢◌, refl, sym, ap, ◌∙◌, Bytes, false, List,
  [], ◌∷◌, ◌++◌, Option, none, some, length, take, drop, ltb, ◌==◌, not, if◌then◌else◌, Bool-cases,
  inl, inr, Result, ok, >>=-eq-ok, throw_if-ok, ok-injective, Exception, internal, append_assoc,
  append-nil, take-append, drop-append, arith,
}
use mathlib.Core.Option.{some-injective}
use lance_duckdb.Cache.Keys.{
  decimal_from, to_string, append_key_part, append_key_number, fingerprint_key_part, path_prefix,
  namespace_prefix, append_options, resolved_path_key, namespace_key,
}

-- A reader of the parts. A number up to the colon:
unfoldable scan : ℕ → Bytes → Option (ℕ × Bytes)
scan v [] = none
scan v (c ∷ s) =
    let further = scan (v * 10 + (c - b'0')) s in if c == b':' then some (v, s) else further

scan_more : (v d : ℕ) (s : Bytes) → d < 10 → scan v ((b'0' + d) ∷ s) ≡ scan (v * 10 + d) s
unfolding scan
scan_more v d s h =
    let digit : (b'0' + d == b':') ≡ false = ground arith in
    rw digit (ap (λ (n : ℕ). scan (v * 10 + n) s) (omega arith))

scan-decimal_from :
    (rounds n : ℕ) (tail : Bytes) → n ≤ rounds → scan 0 (decimal_from rounds n tail) ≡ scan n tail
unfolding decimal_from
scan-decimal_from zero n tail h =
    scan_more 0 (n % 10) tail (omega arith) ∙ ap (λ (m : ℕ). scan m tail) (omega arith)
scan-decimal_from (suc rounds) n tail h = elim (Bool-cases (ltb n 10)) [
  | inl short ↦
      rw short (scan_more 0 n tail (ground arith) ∙ ap (λ (m : ℕ). scan m tail) (omega arith))
  | inr long ↦ rw long (
      scan-decimal_from rounds (n / 10) ((b'0' + n % 10) ∷ tail) (ground arith)
      ∙ scan_more (n / 10) (n % 10) tail (omega arith)
      ∙ ap (λ (m : ℕ). scan m tail) (omega arith))
]

decimal_append :
    (rounds n : ℕ) (tail more : Bytes)
    → decimal_from rounds n tail ++ more ≡ decimal_from rounds n (tail ++ more)
unfolding decimal_from
decimal_append zero n tail more = refl
decimal_append (suc rounds) n tail more = elim (Bool-cases (ltb n 10)) [
  | inl short ↦ rw short
  | inr long ↦ rw long (decimal_append rounds (n / 10) ((b'0' + n % 10) ∷ tail) more)
]

scan-to_string : (n : ℕ) (rest : Bytes) → scan 0 (to_string n ++ b':' ∷ rest) ≡ some (n, rest)
unfolding to_string scan
scan-to_string n rest =
    ap (scan 0) (decimal_append n n [] (b':' ∷ rest))
    ∙ scan-decimal_from n n (b':' ∷ rest) (omega arith)

abbrev part : Bytes → Bytes
part s = to_string (length s) ++ (b':' ∷ (s ++ b';' ∷ []))

cut : Option (ℕ × Bytes) → Option (Bytes × Bytes)
cut none = none
cut (some (n, bs)) = some (take n bs, drop n bs)

-- A part stands in front of what follows it as its text and a semicolon.
cut-part : (s rest : Bytes) → cut (scan 0 (part s ++ rest)) ≡ some (s, b';' ∷ rest)
unfolding cut
cut-part s rest =
    ap (λ (t : Bytes). cut (scan 0 t)) (append_assoc (to_string (length s)) _ rest)
    ∙ ap cut (scan-to_string (length s) ((s ++ b';' ∷ []) ++ rest))
    ∙ rw (append_assoc s (b';' ∷ []) rest, take-append s (b';' ∷ rest), drop-append s (b';' ∷ rest))

part-injective :
    (s t : Bytes) {rest rest' : Bytes} → part s ++ rest ≡ part t ++ rest' → (s ≡ t) × (rest ≡ rest')
part-injective s t {rest} {rest'} h =
    let same =
      some-injective _ _
        (sym (cut-part s rest) ∙ ap (λ (b : Bytes). cut (scan 0 b)) h ∙ cut-part t rest') in
    (ap (λ (r : Bytes × Bytes). r.0) same, ap (λ (r : Bytes × Bytes). drop 1 r.1) same)

part-nonempty : (s rest : Bytes) → part s ++ rest ≢ []
unfolding cut scan
part-nonempty s rest h = cc (sym (cut-part s rest) ∙ ap (λ (b : Bytes). cut (scan 0 b)) h)

-- The options by themselves.
option_parts : List Bytes → List Bytes → Bytes
option_parts [] vs = []
option_parts (k ∷ ks) [] = []
option_parts (k ∷ ks) (v ∷ vs) = part k ++ (part v ++ option_parts ks vs)

append_options-parts :
    (key : Bytes) (ks vs : List Bytes) → append_options key ks vs ≡ key ++ option_parts ks vs
unfolding append_options append_key_part option_parts
append_options-parts key [] vs = sym (append-nil key)
append_options-parts key (k ∷ ks) [] = sym (append-nil key)
append_options-parts key (k ∷ ks) (v ∷ vs) =
    append_options-parts ((key ++ part k) ++ part v) ks vs
    ∙ append_assoc (key ++ part k) (part v) (option_parts ks vs)
    ∙ append_assoc key (part k) (part v ++ option_parts ks vs)

option_parts-injective :
    (ks vs ks' vs' : List Bytes)
    → length ks ≡ length vs
    → length ks' ≡ length vs'
    → option_parts ks vs ≡ option_parts ks' vs'
    → (ks ≡ ks') × (vs ≡ vs')
unfolding option_parts
option_parts-injective [] [] [] [] p q h = (refl, refl)
option_parts-injective [] (v ∷ vs) ks' vs' p q h = absurd (omega arith)
option_parts-injective (k ∷ ks) [] ks' vs' p q h = absurd (omega arith)
option_parts-injective [] [] [] (v ∷ vs') p q h = absurd (omega arith)
option_parts-injective [] [] (k ∷ ks') [] p q h = absurd (omega arith)
option_parts-injective [] [] (k ∷ ks') (v ∷ vs') p q h = absurd (part-nonempty k _ (sym h))
option_parts-injective (k ∷ ks) (v ∷ vs) [] [] p q h = absurd (part-nonempty k _ h)
option_parts-injective (k ∷ ks) (v ∷ vs) [] (v' ∷ vs') p q h = absurd (omega arith)
option_parts-injective (k ∷ ks) (v ∷ vs) (k' ∷ ks') [] p q h = absurd (omega arith)
option_parts-injective (k ∷ ks) (v ∷ vs) (k' ∷ ks') (v' ∷ vs') p q h =
    let (same_k, h₁) = part-injective k k' h in
    let (same_v, h₂) = part-injective v v' h₁ in
    let (same_ks, same_vs) = option_parts-injective ks vs ks' vs' (omega arith) (omega arith) h₂ in
    (cc (same_k, same_ks), cc (same_v, same_vs))

-- The shape of a path's key.
path_key-parts :
    (normalize : Bytes → Result Exception Bytes) (path : Bytes) (ks vs : List Bytes) {key : Bytes}
    → resolved_path_key normalize path ks vs ≡ ok key
    → (p : Bytes) × (normalize path ≡ ok p)
      × (length ks ≡ length vs)
      × (key ≡ path_prefix ++ (part p ++ (part (to_string (length ks)) ++ option_parts ks vs)))
unfolding resolved_path_key append_key_number append_key_part
path_key-parts normalize path ks vs h =
    let (even, h₁) = throw_if-ok (not (length ks == length vs)) internal _ h in
    let (p, normal, h₂) = >>=-eq-ok (normalize path) _ h₁ in
    let start = path_prefix ++ part p in
    let number = part (to_string (length ks)) in
    (
      p,
      normal,
      ground arith,
      sym (ok-injective h₂)
          ∙ append_options-parts (start ++ number) ks vs
          ∙ append_assoc start number (option_parts ks vs)
          ∙ append_assoc path_prefix (part p) (number ++ option_parts ks vs),
    )

-- Two paths whose keys are the same are the same after normalisation, and are opened with the same
-- option keys and values.
pub resolved_path_key-injective :
    (normalize : Bytes → Result Exception Bytes) (path path' : Bytes) (ks vs ks' vs' : List Bytes)
    {key : Bytes}
    → resolved_path_key normalize path ks vs ≡ ok key
    → resolved_path_key normalize path' ks' vs' ≡ ok key
    → (normalize path ≡ normalize path') × (ks ≡ ks') × (vs ≡ vs')
resolved_path_key-injective normalize path path' ks vs ks' vs' h h' =
    let (p, normal, even, e) = path_key-parts normalize path ks vs h in
    let (p', normal', even', e') = path_key-parts normalize path' ks' vs' h' in
    let (same_p, e₁) = part-injective p p' (ap (drop 5) (sym e ∙ e')) in
    let (same_n, e₂) = part-injective (to_string (length ks)) (to_string (length ks')) e₁ in
    let (same_ks, same_vs) = option_parts-injective ks vs ks' vs' even even' e₂ in
    (cc (normal, normal', same_p), same_ks, same_vs)

-- The shape of a namespace's key.
namespace_key-parts :
    (hash : Bytes → ℕ) (endpoint table_id bearer_token api_key delimiter headers_tsv : Bytes)
    → namespace_key hash endpoint table_id bearer_token api_key delimiter headers_tsv
      ≡ namespace_prefix
        ++ (part endpoint
            ++ (part table_id
                ++ (part (to_string (hash bearer_token))
                    ++ (part (to_string (hash api_key))
                        ++ (part delimiter ++ (part (to_string (hash headers_tsv)) ++ []))))))
unfolding namespace_key append_key_part fingerprint_key_part
namespace_key-parts hash a b c d e f = simp (append_assoc, append-nil)

to_string-injective : (m n : ℕ) → to_string m ≡ to_string n → m ≡ n
to_string-injective m n h =
    ap (λ (r : ℕ × Bytes). r.0)
      (some-injective _ _ (
        sym (scan-to_string m [])
        ∙ ap (λ (s : Bytes). scan 0 (s ++ b':' ∷ [])) h
        ∙ scan-to_string n []))

-- Two tables of namespaces whose keys are the same have the same endpoint, identifier and delimiter,
-- and tokens, API keys and headers of the same hashes.
pub namespace_key-injective :
    (hash : Bytes → ℕ) (a b c d e f a' b' c' d' e' f' : Bytes)
    → namespace_key hash a b c d e f ≡ namespace_key hash a' b' c' d' e' f'
    → (a ≡ a') × (b ≡ b') × (hash c ≡ hash c') × (hash d ≡ hash d') × (e ≡ e') × (hash f ≡ hash f')
namespace_key-injective hash a b c d e f a' b' c' d' e' f' h =
    let h₀ = ap (drop 10) (
      sym (namespace_key-parts hash a b c d e f)
      ∙ h
      ∙ namespace_key-parts hash a' b' c' d' e' f') in
    let (same_a, h₁) = part-injective a a' h₀ in
    let (same_b, h₂) = part-injective b b' h₁ in
    let (same_c, h₃) = part-injective (to_string (hash c)) (to_string (hash c')) h₂ in
    let (same_d, h₄) = part-injective (to_string (hash d)) (to_string (hash d')) h₃ in
    let (same_e, h₅) = part-injective e e' h₄ in
    let (same_f, _) = part-injective (to_string (hash f)) (to_string (hash f')) h₅ in
    (
      same_a,
      same_b,
      to_string-injective (hash c) (hash c') same_c,
      to_string-injective (hash d) (hash d') same_d,
      same_e,
      to_string-injective (hash f) (hash f') same_f,
    )

abbrev first_byte : Bytes → ℕ
first_byte [] = 0
first_byte (b ∷ s) = b

-- No path has the key of a table of a namespace.
pub resolved_path_key-namespace_key :
    (normalize : Bytes → Result Exception Bytes) (hash : Bytes → ℕ) (path : Bytes)
    (ks vs : List Bytes) (a b c d e f : Bytes)
    → resolved_path_key normalize path ks vs ≢ ok (namespace_key hash a b c d e f)
resolved_path_key-namespace_key normalize hash path ks vs a b c d e f h =
    let (p, normal, even, shape) = path_key-parts normalize path ks vs h in
    let first : b'p' ≡ b'n' = ap first_byte (sym shape ∙ namespace_key-parts hash a b c d e f) in
    omega (arith, first)
