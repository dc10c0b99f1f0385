-- ===== src/Inspect/Png/Dimensions.antt =====
-- The dimensions that the inspection of a PNG returns are those of its first chunk.
use systeme_local.Prelude.{
  ℕ, zero, suc, ◌+◌, ◌-◌, ◌≤◌, ◌≡◌, refl, ◌⊎◌, inl, inr, Bool, true, false, not, ◌||◌, Option, none,
  some, List, [], ◌∷◌, arith, ltb, ◌==◌, Bool-cases, ok, ◌>>=◌, raise_if, Post, Post-ok, Post-err,
  Post-bind, Post-then, Post-if, raise_if-ok, length, any, bind-ok, then-split,
}
use mathlib.Core.Path.{subst}
use systeme_local.Inspect.Bytes.{unfinished, slice, byte_at, big, bytes_eq, starts_with, one_of}
use systeme_local.Inspect.Png.{
  bad_png, PngState, png_signature, ihdr, idat, iend, png_start, valid_depth, read_ihdr, chunk_size,
  after_chunk, read_chunk, read_chunks, png_size, inspect_png, is_letter,
}
use Prim.Native.Nat.{◌%◌}

-- the width and the height at a place, where they are not zero
abbrev pub IsSize : List ℕ → ℕ → ℕ × ℕ → Type 0
IsSize content start dims =
    (dims.0 ≡ big (slice content start (start + 4)))
    × (dims.1 ≡ big (slice content (start + 4) (start + 8)))
    × (1 ≤ dims.0)
    × (1 ≤ dims.1)

read_ihdr-IsSize :
    (content type : List ℕ) (size start : ℕ)
    → Post (IsSize content start) (read_ihdr content type size start)
unfolding read_ihdr
read_ihdr-IsSize content type size start =
    Post-then (raise_if (not (bytes_eq type ihdr) || not (size == 13)) bad_png) _ (λ a.
      Post-bind (byte_at content (start + 8)) _ (λ depth q8.
        Post-bind (byte_at content (start + 9)) _ (λ color q9.
          Post-bind (byte_at content (start + 10)) _ (λ compression q10.
            Post-bind (byte_at content (start + 11)) _ (λ filter_method q11.
              Post-bind (byte_at content (start + 12)) _ (λ interlace q12.
                Post-then
                  (raise_if
                    (big (slice content start (start + 4)) == 0
                      || big (slice content (start + 4) (start + 8)) == 0
                      || not (valid_depth color depth)
                      || not (compression == 0)
                      || not (filter_method == 0)
                      || not (one_of (0 ∷ 1 ∷ []) interlace))
                    bad_png)
                  _
                  (λ valid.
                    let free = raise_if-ok _ bad_png valid in
                    Post-ok (refl, refl, ground arith, ground arith))))))))

-- before the first chunk, and after it
abbrev Sized : List ℕ → Option (ℕ × ℕ) → Type 0
Sized content size = (dims : ℕ × ℕ) × (size ≡ some dims) × IsSize content 16 dims

abbrev Ready : List ℕ → PngState → Type 0
Ready content s =
    ((s.chunk_index ≡ 0) × (s.offset ≡ 8) × (s.size ≡ none))
    ⊎ (((s.chunk_index == 0) ≡ false) × Sized content s.size)

chunk_size-Sized :
    (content : List ℕ) (s : PngState) (type : List ℕ) (size : ℕ)
    → Ready content s
    → Post (Sized content) (chunk_size content s type size)
unfolding chunk_size
chunk_size-Sized content s type size (inl (first, at8, none_yet)) =
    let here_ : (s.chunk_index == 0) ≡ true = ground arith in
    let start : s.offset + 8 ≡ 16 = omega arith in
    rw (here_, start)
      (Post-bind (read_ihdr content type size 16) _
        (λ dims read. Post-ok (dims, refl, (read_ihdr-IsSize content type size 16).at dims read)))
chunk_size-Sized content s type size (inr (later, sized)) =
    rw later (Post-then (raise_if (bytes_eq type ihdr) bad_png) _ (λ a. Post-ok sized))

AfterChunk : List ℕ → PngState → Type 0
AfterChunk content t = Sized content t.size × (t.saw_iend ≡ false → (t.chunk_index == 0) ≡ false)

after_chunk-Sized :
    (content : List ℕ) (s : PngState) (type : List ℕ) (size : ℕ) (dims : Option (ℕ × ℕ))
    → Sized content dims
    → Post (AfterChunk content) (after_chunk content s type size dims)
unfolding after_chunk AfterChunk
after_chunk-Sized content s type size dims h = elim (Bool-cases (bytes_eq type iend)) [
  | inl e ↦ rw e (
      Post-then (raise_if (not (size == 0) || not (s.saw_idat || bytes_eq type idat)) bad_png) _
        (λ a.
          Post-then (raise_if (not (s.offset + 8 + size + 4 == length content)) bad_png) _
            (λ b. Post-ok (h, λ q. cc))))
  | inr e ↦ rw e (Post-ok (h, λ q. ground arith))
]

module _ (crc32 : List ℕ → ℕ → ℕ) where
  read_chunk-Sized :
      (content : List ℕ) (s : PngState)
      → Ready content s
      → Post (AfterChunk content) (read_chunk crc32 content s)
  unfolding read_chunk
  read_chunk-Sized content s h =
      let size = big (slice content s.offset (s.offset + 4)) in
      let type = slice content (s.offset + 4) (s.offset + 8) in
      let data_start = s.offset + 8 in
      let data_end = data_start + size in
      Post-then (raise_if (ltb (length content - s.offset) 12) bad_png) _ (λ a.
        Post-then (raise_if (not (length type == 4) || any (λ v. not (is_letter v)) type) bad_png) _
          (λ b.
            Post-then
              (raise_if (ltb data_end data_start || ltb (length content) (data_end + 4)) bad_png) _
              (λ c.
                Post-then
                  (raise_if
                    (not (
                      big (slice content data_end (data_end + 4))
                      == crc32 (slice content data_start data_end) (crc32 type 0) % 4_294_967_296))
                    bad_png)
                  _
                  (λ d. Post-bind (chunk_size content s type size) _ (λ dims read.
                    after_chunk-Sized content s type size dims
                      ((chunk_size-Sized content s type size h).at dims read))))))

  -- at the end of the loop
  Ended : List ℕ → PngState → Type 0
  Ended content t = (t.size ≡ none) ⊎ Sized content t.size

  Ready-Ended : (content : List ℕ) (s : PngState) → Ready content s → Ended content s
  unfolding Ended
  Ready-Ended content s (inl (a, b, c)) = inl c
  Ready-Ended content s (inr (a, b)) = inr b

  read_chunks-Ended :
      (fuel : ℕ) (content : List ℕ) (s : PngState)
      → Ready content s
      → Post (Ended content) (read_chunks crc32 fuel content s)
  unfolding read_chunks AfterChunk Ended
  read_chunks-Ended zero content s h = elim (Bool-cases (ltb s.offset (length content))) [
    | inl e ↦ rw e (Post-err unfinished)
    | inr e ↦ rw e (Post-ok (Ready-Ended content s h))
  ]
  read_chunks-Ended (suc fuel) content s h = elim (Bool-cases (ltb s.offset (length content))) [
    | inl e ↦ rw e (
        Post-bind (read_chunk crc32 content s) _ (λ t read.
          let (sized, later) = (read_chunk-Sized content s h).at t read in
          Post-if t.saw_iend _ _ (λ f. Post-ok (inr sized))
            (λ f. read_chunks-Ended fuel content t (inr (later f, sized)))))
    | inr e ↦ rw e (Post-ok (Ready-Ended content s h))
  ]

  png_size-IsSize :
      (content : List ℕ) (o : Option (ℕ × ℕ)) (saw : Bool) (dims : ℕ × ℕ)
      → (o ≡ none) ⊎ Sized content o
      → png_size o saw ≡ ok dims
      → IsSize content 16 dims
  png_size-IsSize content none saw dims h q = cc
  png_size-IsSize content (some x) saw dims (inl h) q = cc
  png_size-IsSize content (some x) true dims (inr (d, e, sized)) q =
      let same : d ≡ dims = cc in subst (IsSize content 16) same sized
  png_size-IsSize content (some x) false dims (inr (d, e, sized)) q = cc

  -- Where the inspection of a PNG returns a width and a height, the content starts with the
  -- signature of PNG, the width is the number in the four bytes after the first sixteen, the height
  -- is the number in the next four, and neither is zero.
  pub inspect_png-IsSize :
      (content : List ℕ) (dims : ℕ × ℕ)
      → inspect_png crc32 content ≡ ok dims
      → (starts_with content png_signature ≡ true) × IsSize content 16 dims
  unfolding inspect_png Ended
  inspect_png-IsSize content dims h =
      let (long, h') =
        then-split
          (raise_if (ltb (length content) 20 || not (starts_with content png_signature)) bad_png)
          (read_chunks crc32 (length content) content png_start
            >>= (λ s. png_size s.size s.saw_iend))
          h in
      let (s, read, last) =
        bind-ok (read_chunks crc32 (length content) content png_start)
          (λ s. png_size s.size s.saw_iend) h' in
      let free =
        raise_if-ok (ltb (length content) 20 || not (starts_with content png_signature)) bad_png
          long in
      (
        ground arith,
        png_size-IsSize content s.size s.saw_iend dims
            ((read_chunks-Ended (length content) content png_start (inl (refl, refl, refl))).at s
              read)
            last,
      )
