-- ===== src/Api/Upload.antt =====
-- `_read_within_cap`: the bounded read of an upload. The file is the list of the chunks that
-- `file.read` returns; an empty chunk is its end.
use allocation_key_generatio.Base.{
  ℕ, ◌+◌, ◌≤◌, ◌<◌, ◌≡◌, ◌≢◌, refl, ap, Option, none, some, List, [], ◌∷◌, ◌++◌, length,
  length-append, ltb, leb, if◌then◌else◌, All, arith, sym, subst, ◌∙◌, if_split, ltb→lt, not_ltb→le,
}
use mathlib.Core.List.{append_assoc, append-nil}

abbrev pub upload_max_body_bytes : ℕ
upload_max_body_bytes = 52428800

-- The loop, with the buffer so far; `none` is the error 413.
abbrev pub read_from : ℕ → List ℕ → List (List ℕ) → Option (List ℕ)
read_from max_bytes buffer [] = some buffer
read_from max_bytes buffer ([] ∷ chunks) = some buffer
read_from max_bytes buffer ((b ∷ bs) ∷ chunks) =
    let rest = read_from max_bytes (buffer ++ b ∷ bs) chunks in
    if ltb max_bytes (length buffer + length (b ∷ bs)) then none else rest

unfoldable pub read_within_cap : List (List ℕ) → ℕ → Option (List ℕ)
read_within_cap chunks max_bytes = read_from max_bytes [] chunks

-- The whole body
abbrev pub body : List (List ℕ) → List ℕ
body [] = []
body (c ∷ chunks) = c ++ body chunks

-- A text under the limit, or nothing
abbrev pub capped : ℕ → List ℕ → Option (List ℕ)
capped max_bytes content = if leb (length content) max_bytes then some content else none

capped_over :
    (max_bytes : ℕ) (content : List ℕ)
    → max_bytes < length content
    → capped max_bytes content ≡ none
capped_over max_bytes content h = ground arith

capped_within :
    (max_bytes : ℕ) (content : List ℕ)
    → length content ≤ max_bytes
    → capped max_bytes content ≡ some content
capped_within max_bytes content h = ground arith

read_from-body :
    (max_bytes : ℕ) (buffer : List ℕ) (chunks : List (List ℕ))
    → All (λ c. c ≢ []) chunks
    → length buffer ≤ max_bytes
    → read_from max_bytes buffer chunks ≡ capped max_bytes (buffer ++ body chunks)
read_from-body max_bytes buffer [] h fits =
    rw (append-nil buffer) (sym (capped_within max_bytes buffer fits))
read_from-body max_bytes buffer ([] ∷ chunks) h fits = absurd (h.0 refl)
read_from-body max_bytes buffer ((b ∷ bs) ∷ chunks) h fits =
    let chunk = b ∷ bs in
    let lengths = length-append buffer chunk in
    let whole = append_assoc buffer chunk (body chunks) in
    let lengths' = length-append (buffer ++ chunk) (body chunks) in
    if_split (λ r. r ≡ capped max_bytes (buffer ++ body (chunk ∷ chunks)))
      (ltb max_bytes (length buffer + length chunk))
      (λ e. sym (
        subst (λ l. capped max_bytes l ≡ none) whole
          (capped_over max_bytes ((buffer ++ chunk) ++ body chunks)
            (omega (arith, lengths, lengths', ltb→lt max_bytes (length buffer + length chunk) e)))))
      (λ e.
        read_from-body max_bytes (buffer ++ chunk) chunks h.1
          (omega (arith, lengths, not_ltb→le max_bytes (length buffer + length chunk) e))
        ∙ ap (capped max_bytes) whole)

-- A file that arrives in chunks of any sizes is read whole if it has at most `max_bytes` bytes,
-- and refused if it has more.
pub read_within_cap-eq-capped :
    (chunks : List (List ℕ)) (max_bytes : ℕ)
    → All (λ c. c ≢ []) chunks
    → read_within_cap chunks max_bytes ≡ capped max_bytes (body chunks)
unfolding read_within_cap
read_within_cap-eq-capped chunks max_bytes h = read_from-body max_bytes [] chunks h (omega arith)
