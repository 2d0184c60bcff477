-- ===== src/Pipeline/Chunking.antt =====
-- The chunker that splits a document for classification (src/openlabels/core/pipeline/chunking.py). The
-- loop is on fuel, one more than the characters of the text, since each round but the last moves on.
pub mod Windows
mod Examples
use openlabels.Prelude.{
  ℕ, zero, suc, ◌+◌, ◌-◌, ◌*◌, ◌/◌, ◌%◌, ◌≤◌, ◌<◌, min, max, ◌≡◌, refl, sym, ap, ◌∙◌, subst, ◌≢◌,
  ◌↔◌, ◌⊎◌, inl, inr, Bool, true, false, not, ◌&&◌, ◌||◌, Option, none, some, List, [], ◌∷◌, ◌++◌,
  map, reverse, arith, ltb, leb, ◌==◌, if◌then◌else◌, ltb→lt, lt→ltb, ge→ltb, leb→le, le→leb,
  gt→leb, ==_iff, Bool-cases, Option-cases, some_inj, length, get_elem?, take, drop, slice, keep,
  All, Any, all, any, length-append, length-take, length-drop,
}
use openlabels.Prelude.Text.{Str}

pub record TextChunk : Type 0 where
  pub text : Str
  pub start : ℕ
  pub end : ℕ

pub record TextChunker : Type 0 where
  pub max_chunk_size : ℕ
  pub overlap : ℕ

abbrev pub holds_at : ℕ → Option ℕ → Bool
holds_at c none = false
holds_at c (some d) = c == d

-- `s.rfind(c, lo, hi)` for a `hi` of at most the length; `none` is -1.
unfoldable pub rfind : Str → ℕ → ℕ → ℕ → Option ℕ
rfind s c lo zero = none
rfind s c lo (suc h) =
    let rest = rfind s c lo h in if leb lo h && holds_at c (get_elem? s h) then some h else rest

-- Where the chunk that begins at `start` ends: behind the last space of its second half, if there is
-- one and the text goes on.
unfoldable pub end_of : TextChunker → Str → ℕ → ℕ
unfolding rfind
end_of k text start =
    let end = min (start + k.max_chunk_size) (length text) in
    if ltb end (length text)
    then elim (rfind text b' ' (start + k.max_chunk_size / 2) end) [
      | none ↦ end
      | some break_at ↦ break_at + 1
    ]
    else end

-- How far the next chunk begins behind this one.
unfoldable pub step : TextChunker → ℕ → ℕ → ℕ
step k start end = if leb (end - start) k.overlap then end - start else end - start - k.overlap

abbrev pub cut : Str → ℕ → ℕ → TextChunk
cut text start end = record { text = slice text start end; start = start; end = end }

unfoldable pub chunk_from : TextChunker → Str → ℕ → ℕ → Option (List TextChunk)
unfolding end_of step
chunk_from k text zero start = none
chunk_from k text (suc fuel) start =
    let end = end_of k text start in
    let rest = chunk_from k text fuel (start + step k start end) in
    if ltb start (length text)
    then elim rest [ none ↦ none | some chunks ↦ some (cut text start end ∷ chunks) ]
    else some []

-- `chunk`
unfoldable pub chunk : TextChunker → Str → Option (List TextChunk)
unfolding chunk_from
chunk k text =
    if length text == 0
    then some []
    else if leb (length text) k.max_chunk_size
    then some (record { text = text; start = 0; end = length text } ∷ [])
    else chunk_from k text (suc (length text)) 0
