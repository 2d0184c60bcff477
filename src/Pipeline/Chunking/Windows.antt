-- ===== src/Pipeline/Chunking/Windows.antt =====
-- What the chunks of a text hold.
use openlabels.Prelude.{
  ℕ, zero, suc, ◌+◌, ◌-◌, ◌/◌, ◌≤◌, ◌<◌, min, ◌≡◌, refl, sym, ap, ◌∙◌, subst, ◌⊎◌, inl, inr, false,
  some, List, [], ◌∷◌, arith, ltb, leb, ◌==◌, ltb→lt, leb→le, Bool-cases, Option-cases, some_inj,
  length, slice, All, Any,
}
use openlabels.Prelude.Text.{Str}
use openlabels.Pipeline.Chunking.{
  TextChunk, TextChunker, rfind, end_of, step, cut, chunk_from, chunk,
}

rfind-between : (s : Str) (c lo hi p : ℕ) → rfind s c lo hi ≡ some p → (lo ≤ p) × (p < hi)
unfolding rfind
rfind-between s c lo zero p h = cc
rfind-between s c lo (suc h) p e = ground (arith, rfind-between s c lo h p)

slice-whole : {A : Type 0} → (xs : List A) → xs ≡ slice xs 0 (length xs)
slice-whole [] = refl
slice-whole (x ∷ xs) =
    let e : length (x ∷ xs) - 0 ≡ suc (length xs - 0) = omega arith in
    rw (slice, e) (ap (λ ys. x ∷ ys) (slice-whole xs))

-- A chunk of the text: it is not empty, not too long, and has the text at its offsets.
pub record IsChunk (k : TextChunker) (doc : Str) (c : TextChunk) : Type 0 where
  pub nonempty : c.start < c.end
  pub inside : c.end ≤ length doc
  pub short : c.end ≤ c.start + k.max_chunk_size
  pub matches : c.text ≡ slice doc c.start c.end

-- The characters from the first offset to the second are within the chunk.
abbrev pub Holds : ℕ → ℕ → TextChunk → Type 0
Holds a b c = (c.start ≤ a) × (b ≤ c.end)

module _ (k : TextChunker) (doc : Str) (positive : 0 < k.max_chunk_size) where
  end_of-bounds :
      (start : ℕ)
      → start < length doc
      → (start < end_of k doc start)
        × (end_of k doc start ≤ length doc)
        × (end_of k doc start ≤ start + k.max_chunk_size)
        × ((end_of k doc start ≡ length doc) ⊎ (start + k.max_chunk_size / 2 < end_of k doc start))
  unfolding end_of
  end_of-bounds start h =
      elim (Option-cases (
        rfind doc b' ' (start + k.max_chunk_size / 2)
          (min (start + k.max_chunk_size) (length doc)))) [
            | inl e ↦ ground arith
            | inr (p, e) ↦ ground (
              arith,
              rfind-between doc b' ' (start + k.max_chunk_size / 2)
                  (min (start + k.max_chunk_size) (length doc)) p e,
            )
          ]

  step-bounds :
      (start end : ℕ) → start < end → (0 < step k start end) × (start + step k start end ≤ end)
  unfolding step
  step-bounds start end h = ground arith

  step-overlaps :
      (start end : ℕ) → k.overlap < end - start → start + step k start end + k.overlap ≡ end
  unfolding step
  step-overlaps start end h = ground arith

  next-before :
      (start a b : ℕ)
      → start < length doc
      → k.overlap ≤ k.max_chunk_size / 2
      → leb b (end_of k doc start) ≡ false
      → b ≤ length doc
      → b ≤ a + k.overlap + 1
      → start + step k start (end_of k doc start) ≤ a
  next-before start a b h gentle e v u =
      let (forward, inside, short, second_half) = end_of-bounds start h in
      let past : end_of k doc start < b = ground arith in
      let wide : k.overlap < end_of k doc start - start = elim second_half [
        | inl q ↦ absurd (omega arith)
        | inr q ↦ omega arith
      ] in
      omega (arith, step-overlaps start (end_of k doc start) wide)

  next-within :
      (start a : ℕ)
      → start < length doc
      → end_of k doc start ≤ a
      → start + step k start (end_of k doc start) ≤ a
  next-within start a h p =
      let (forward, inside, short, second_half) = end_of-bounds start h in
      let (moves, stays) = step-bounds start (end_of k doc start) forward in omega arith

  -- The chunks from `start` on, and that they hold each character and each short window behind it.
  record IsChunked (start : ℕ) (out : List TextChunk) : Type 0 where
    each : All (IsChunk k doc) out
    characters : (a : ℕ) → start ≤ a → a < length doc → Any (Holds a (a + 1)) out
    windows :
        (a b : ℕ)
        → k.overlap ≤ k.max_chunk_size / 2
        → start ≤ a
        → a < b
        → b ≤ length doc
        → b ≤ a + k.overlap + 1
        → Any (Holds a b) out

  cons-IsChunked :
      (start : ℕ) (out : List TextChunk)
      → start < length doc
      → IsChunked (start + step k start (end_of k doc start)) out
      → IsChunked start (cut doc start (end_of k doc start) ∷ out)
  cons-IsChunked start out h r =
      let (forward, inside, short, second_half) = end_of-bounds start h in
      record {
        each =
            (record { nonempty = forward; inside = inside; short = short; matches = refl }, r.each);
        characters = λ a from v. elim (Bool-cases (ltb a (end_of k doc start))) [
          | inl e ↦ inl (from, ground arith)
          | inr e ↦ inr (r.characters a (next-within start a h (ground arith)) v)
        ];
        windows = λ a b gentle from w v u. elim (Bool-cases (leb b (end_of k doc start))) [
          | inl e ↦ inl (from, leb→le b (end_of k doc start) e)
          | inr e ↦ inr (r.windows a b gentle (next-before start a b h gentle e v u) w v u)
        ];
      }

  chunk_from-total :
      (fuel start : ℕ)
      → start ≤ length doc
      → length doc < fuel + start
      → (out : List TextChunk) × (chunk_from k doc fuel start ≡ some out) × IsChunked start out
  unfolding chunk_from
  chunk_from-total zero start p h = absurd (omega arith)
  chunk_from-total (suc fuel) start p h = elim (Bool-cases (ltb start (length doc))) [
    | inl e ↦
        let l = ltb→lt start (length doc) e in
        let (forward, inside, short, second_half) = end_of-bounds start l in
        let (moves, stays) = step-bounds start (end_of k doc start) forward in
        let (out, eq, r) =
          chunk_from-total fuel (start + step k start (end_of k doc start)) (omega arith)
            (omega arith) in
        (cut doc start (end_of k doc start) ∷ out, rw (e, eq) refl, cons-IsChunked start out l r)
    | inr e ↦ (
      [],
      rw e refl,
      record {
        each = tt;
        characters = λ a from v. absurd (ground arith);
        windows = λ a b gentle from w v u. absurd (ground arith);
      },
    )
  ]

  whole-IsChunked :
      length doc ≤ k.max_chunk_size
      → 0 < length doc
      → IsChunked 0 (record { text = doc; start = 0; end = length doc } ∷ [])
  whole-IsChunked h p = record {
    each = (
      record { nonempty = p; inside = omega arith; short = omega arith; matches = slice-whole doc },
      tt,
    );
    characters = λ a from v. inl (omega arith, omega arith);
    windows = λ a b gentle from w v u. inl (omega arith, v);
  }

  chunk-IsChunked : (out : List TextChunk) × (chunk k doc ≡ some out) × IsChunked 0 out
  unfolding chunk
  chunk-IsChunked = elim (Bool-cases (length doc == 0)) [
    | inl e ↦ (
      [],
      rw e refl,
      record {
        each = tt;
        characters = λ a from v. absurd (ground arith);
        windows = λ a b gentle from w v u. absurd (ground arith);
      },
    )
    | inr e ↦ elim (Bool-cases (leb (length doc) k.max_chunk_size)) [
      | inl f ↦ (
        _,
        rw (e, f) refl,
        whole-IsChunked (leb→le (length doc) k.max_chunk_size f) (ground arith),
      )
      | inr f ↦
          let (out, eq, r) = chunk_from-total (suc (length doc)) 0 (omega arith) (omega arith) in
          (out, rw (e, f) eq, r)
    ]
  ]

-- With a positive chunk size, the chunker returns, and each chunk that it returns is not empty, is no longer
-- than the size, and carries the text between its offsets.
pub chunk_total :
    (k : TextChunker) (doc : Str)
    → 0 < k.max_chunk_size
    → (out : List TextChunk) × (chunk k doc ≡ some out) × All (IsChunk k doc) out
chunk_total k doc positive = let (out, e, r) = chunk-IsChunked k doc positive in (out, e, r.each)

-- With a positive chunk size and any overlap, each character of the text is in one of the chunks.
pub chunk-Holds_character :
    (k : TextChunker) (doc : Str) (out : List TextChunk) (a : ℕ)
    → 0 < k.max_chunk_size
    → chunk k doc ≡ some out
    → a < length doc
    → Any (Holds a (a + 1)) out
chunk-Holds_character k doc out a positive e v =
    let (out', e', r) = chunk-IsChunked k doc positive in
    subst (Any (Holds a (a + 1))) (some_inj (sym e' ∙ e)) (r.characters a (omega arith) v)

-- If the overlap is at most half of a positive chunk size, any stretch of the text of at most one character
-- more than the overlap lies within one of the chunks.
pub chunk-Holds :
    (k : TextChunker) (doc : Str) (out : List TextChunk) (a b : ℕ)
    → 0 < k.max_chunk_size
    → k.overlap ≤ k.max_chunk_size / 2
    → chunk k doc ≡ some out
    → a < b
    → b ≤ length doc
    → b ≤ a + k.overlap + 1
    → Any (Holds a b) out
chunk-Holds k doc out a b positive gentle e w v u =
    let (out', e', r) = chunk-IsChunked k doc positive in
    subst (Any (Holds a b)) (some_inj (sym e' ∙ e)) (r.windows a b gentle (omega arith) w v u)
