-- ===== src/Pipeline/Chunking/Examples.antt =====
-- Runs of the chunker, and the theorems about it at a concrete text.
use openlabels.Prelude.{◌≡◌, refl, some, List, [], ◌∷◌, arith, All, Any}
use openlabels.Prelude.Text.{Str, codes}
use openlabels.Pipeline.Chunking.{TextChunk, TextChunker, cut, chunk}
use openlabels.Pipeline.Chunking.Windows.{IsChunk, Holds, chunk_total, chunk-Holds}

abbrev chunker : TextChunker
chunker = record { max_chunk_size = 8; overlap = 2 }

abbrev document : Str
document = codes "call 555-0100 now"

abbrev chunks : List TextChunk
chunks = cut document 0 5 ∷ cut document 3 11 ∷ cut document 9 17 ∷ cut document 15 17 ∷ []

document_chunked : chunk chunker document ≡ some chunks
unfolding chunk
document_chunked = refl

chunk_total_example :
    (out : List TextChunk) × (chunk chunker document ≡ some out)
    × All (IsChunk chunker document) out
chunk_total_example = chunk_total chunker document (omega arith)

chunk-Holds_example : Any (Holds 10 13) chunks
chunk-Holds_example =
    chunk-Holds chunker document chunks 10 13 (omega arith) (omega arith) document_chunked
      (omega arith) (omega arith) (omega arith)
