-- ===== src/Inspect/Jpeg/Dimensions.antt =====
-- What the inspection of a JPEG returns.
use systeme_local.Prelude.{
  ℕ, zero, suc, ◌+◌, ◌-◌, ◌*◌, ◌≤◌, ◌≡◌, sym, inl, inr, true, not, ◌||◌, Option, none, some, List,
  [], ◌∷◌, arith, ltb, leb, ◌==◌, if◌then◌else◌, Bool-cases, is_some, ok, err, ◌>>=◌, raise_if,
  Post, Post-ok, Post-err, Post-bind, Post-then, Post-if, raise_if-ok, length, bind-ok, then-ok,
  then-split,
}
use systeme_local.Inspect.Bytes.{unfinished, slice, byte_at, big, starts_with, ends_with, one_of}
use systeme_local.Inspect.Jpeg.{
  bad_jpeg, JpegState, jpeg_start, sof_markers, standalone, read_marker, read_sof, after_segment,
  read_segment, read_part, read_parts, jpeg_size, inspect_jpeg,
}

-- no dimensions, or dimensions that are not zero
pub data Sized : Option (ℕ × ℕ) → Type 0 where
  unsized : Sized none
  sized : {dims : ℕ × ℕ} → 1 ≤ dims.0 → 1 ≤ dims.1 → Sized (some dims)

read_sof-Sized :
    (size : Option (ℕ × ℕ)) (payload : List ℕ) (n : ℕ) → Post Sized (read_sof size payload n)
unfolding read_sof
read_sof-Sized size payload n = Post-then (raise_if (is_some size) bad_jpeg) _ (λ a.
    Post-then (raise_if (ltb (length payload) 6) bad_jpeg) _ (λ b.
      Post-bind (byte_at payload 0) _ (λ precision read.
        Post-bind (byte_at payload 5) _ (λ components read'.
          Post-then
            (raise_if
              (not (one_of (8 ∷ 12 ∷ 16 ∷ []) precision)
                || big (slice payload 3 5) == 0
                || big (slice payload 1 3) == 0
                || components == 0
                || not (n == 8 + 3 * components))
              bad_jpeg)
            _
            (λ valid.
              let free = raise_if-ok _ bad_jpeg valid in
              Post-ok (sized (ground arith) (ground arith)))))))

abbrev SizedState : JpegState → Type 0
SizedState t = Sized t.size

after_segment-Sized :
    (marker : ℕ) (s : JpegState) (end : ℕ) (size : Option (ℕ × ℕ))
    → Sized size
    → Sized (after_segment marker s end size).size
after_segment-Sized marker s end size h = elim (Bool-cases (marker == 218)) [
  | inl e ↦ rw e h
  | inr e ↦ rw e h
]

read_part-Sized :
    (content : List ℕ) (s : JpegState) (marker offset : ℕ)
    → Sized s.size
    → Post SizedState (read_part content s marker offset)
unfolding read_part read_segment
read_part-Sized content s marker offset h =
    let n = big (slice content offset (offset + 2)) in
    let sof = read_sof s.size (slice content (offset + 2) (offset + n)) n in
    Post-if (standalone marker) _ _ (λ a. Post-ok h)
      (λ a. Post-then (raise_if (marker == 216 || marker == 217) bad_jpeg) _ (λ b.
        Post-then (raise_if (ltb (length content) (offset + 2)) bad_jpeg) _ (λ c.
          Post-then (raise_if (ltb n 2) bad_jpeg) _ (λ d.
            Post-then (raise_if (ltb (length content) (offset + n)) bad_jpeg) _ (λ e.
              Post-bind (if one_of sof_markers marker then sof else ok s.size) _ (λ size read.
                let known =
                  Post-if {P = Sized} (one_of sof_markers marker) sof (ok s.size)
                    (λ f. read_sof-Sized s.size (slice content (offset + 2) (offset + n)) n)
                    (λ f. Post-ok h) in
                Post-ok (after_segment-Sized marker s (offset + n) size (known.at size read))))))))

read_parts-Sized :
    (fuel : ℕ) (content : List ℕ) (s : JpegState)
    → Sized s.size
    → Post SizedState (read_parts fuel content s)
unfolding read_parts
read_parts-Sized zero content s h =
    Post-if (ltb s.offset (length content - 2)) _ _ (λ a. Post-err unfinished) (λ a. Post-ok h)
read_parts-Sized (suc fuel) content s h =
    Post-if (ltb s.offset (length content - 2)) _ _
      (λ inside.
        Post-bind (read_marker content s.offset >>= (λ m. read_part content s m.0 m.1)) _ (λ t turn.
          let (m, marked, parted) =
            bind-ok (read_marker content s.offset) (λ m. read_part content s m.0 m.1) turn in
          let k = (read_part-Sized content s m.0 m.1 h).at t parted in
          Post-if (is_some t.scan_data_start) _ _ (λ e. Post-ok k)
            (λ open_. read_parts-Sized fuel content t k)))
      (λ over. Post-ok h)

jpeg_size-Sized :
    (content : List ℕ) (o : Option (ℕ × ℕ)) (scan : Option ℕ) (dims : ℕ × ℕ)
    → Sized o
    → jpeg_size content o scan ≡ ok dims
    → (1 ≤ dims.0) × (1 ≤ dims.1)
jpeg_size-Sized content none scan dims h q = cc
jpeg_size-Sized content (some x) none dims h q = cc
jpeg_size-Sized content (some x) (some start) dims (sized a b) q =
    elim (Bool-cases (leb (length content - 2) start)) [
      | inl e ↦ let k : err bad_jpeg ≡ ok dims = rw e at q in cc
      | inr e ↦
          let k : ok x ≡ ok dims = rw e at q in let same = then-ok (ok tt) k in rw (sym same) (a, b)
    ]

-- Where the inspection of a JPEG returns a width and a height, the content begins with the marker of
-- the start of an image and ends with that of its end, and neither number is zero.
pub inspect_jpeg-bounded :
    (content : List ℕ) (dims : ℕ × ℕ)
    → inspect_jpeg content ≡ ok dims
    → (starts_with content (255 ∷ 216 ∷ []) ≡ true)
      × (ends_with content (255 ∷ 217 ∷ []) ≡ true)
      × (1 ≤ dims.0)
      × (1 ≤ dims.1)
unfolding inspect_jpeg
inspect_jpeg-bounded content dims h =
    let outer =
      ltb (length content) 8
      || not (starts_with content (255 ∷ 216 ∷ []))
      || not (ends_with content (255 ∷ 217 ∷ [])) in
    let (long, h') =
      then-split (raise_if outer bad_jpeg)
        (read_parts (length content) content jpeg_start
          >>= (λ s. jpeg_size content s.size s.scan_data_start))
        h in
    let (s, read, last) =
      bind-ok (read_parts (length content) content jpeg_start)
        (λ s. jpeg_size content s.size s.scan_data_start) h' in
    let free = raise_if-ok outer bad_jpeg long in
    let (w, k) =
      jpeg_size-Sized content s.size s.scan_data_start dims
        ((read_parts-Sized (length content) content jpeg_start unsized).at s read) last in
    (ground arith, ground arith, w, k)
