-- ===== src/Inspect/Bytes.antt =====
-- Reading bytes, as src/systeme_local_gateway/providers/attachment_commit.py does; a byte is a
-- number, and an index out of range is an error.
use systeme_local.Prelude.{
  ℕ, zero, suc, ◌+◌, ◌-◌, ◌*◌, ◌≤◌, ◌<◌, ◌≡◌, refl, Bool, true, false, ◌&&◌, List, [], ◌∷◌, arith,
  leb, ◌==◌, Result, ok, err, length, any,
}

pub data AttachmentInspectionReason : Type 0 where
  empty_content content_too_large invalid_png invalid_jpeg : AttachmentInspectionReason
  invalid_pdf invalid_utf8 nul_byte invalid_json : AttachmentInspectionReason

-- `AttachmentInspectionError`, Python's `IndexError`, pydantic's `ValidationError` of the result,
-- and a loop that was cut off
pub data InspectError : Type 0 where
  inspection_error : AttachmentInspectionReason → InspectError
  index_error invalid_result unfinished : InspectError

abbrev pub drop : ℕ → List ℕ → List ℕ
drop zero xs = xs
drop (suc n) [] = []
drop (suc n) (x ∷ xs) = drop n xs

abbrev pub take : ℕ → List ℕ → List ℕ
take zero xs = []
take (suc n) [] = []
take (suc n) (x ∷ xs) = x ∷ take n xs

-- `content[start:end]`
abbrev pub slice : List ℕ → ℕ → ℕ → List ℕ
slice content start end = take (end - start) (drop start content)

-- `content[index]`
abbrev pub byte_at : List ℕ → ℕ → Result InspectError ℕ
byte_at [] i = err index_error
byte_at (x ∷ xs) zero = ok x
byte_at (x ∷ xs) (suc i) = byte_at xs i

-- `int.from_bytes(…, "big")`
abbrev pub big_from : ℕ → List ℕ → ℕ
big_from n [] = n
big_from n (x ∷ xs) = big_from (n * 256 + x) xs

abbrev pub big : List ℕ → ℕ
big = big_from 0

abbrev pub bytes_eq : List ℕ → List ℕ → Bool
bytes_eq [] [] = true
bytes_eq (x ∷ xs) (y ∷ ys) = x == y && bytes_eq xs ys
bytes_eq _ _ = false

unfoldable pub starts_with : List ℕ → List ℕ → Bool
starts_with content prefix = bytes_eq (slice content 0 (length prefix)) prefix

unfoldable pub ends_with : List ℕ → List ℕ → Bool
ends_with content suffix =
    leb (length suffix) (length content)
    && bytes_eq (slice content (length content - length suffix) (length content)) suffix

abbrev pub one_of : List ℕ → ℕ → Bool
one_of options n = any (λ x. x == n) options

pub byte_at-ok :
    (content : List ℕ) (i : ℕ) → i < length content → (b : ℕ) × (byte_at content i ≡ ok b)
byte_at-ok [] i h = absurd (omega arith)
byte_at-ok (x ∷ xs) zero h = (x, refl)
byte_at-ok (x ∷ xs) (suc i) h = byte_at-ok xs i (omega arith)

pub length-drop : (n : ℕ) (xs : List ℕ) → length (drop n xs) ≡ length xs - n
length-drop zero xs = omega arith
length-drop (suc n) [] = omega arith
length-drop (suc n) (x ∷ xs) = omega (arith, length-drop n xs)

length-take : (n : ℕ) (xs : List ℕ) → n ≤ length xs → length (take n xs) ≡ n
length-take zero xs h = refl
length-take (suc n) [] h = absurd (omega arith)
length-take (suc n) (x ∷ xs) h = omega (arith, length-take n xs)

pub length-slice :
    (content : List ℕ) (i j : ℕ) → i ≤ j → j ≤ length content → length (slice content i j) ≡ j - i
length-slice content i j a b =
    length-take (j - i) (drop i content) (omega (arith, length-drop i content))
