-- ===== src/Examples/Chunks.antt =====
-- The theorems on ingestion/chunking.py, at a document of two blocks.
use mathlib.Core.List.{Memᴰ}
use legal_chatbot_ueb_demo_s.Prelude.{
  ℕ, ◌≤◌, ◌<◌, ◌≡◌, ◌⊎◌, refl, zero, suc, true, String, none, some, List, [], ◌∷◌, ◌++◌, Text, ok,
  arith,
}
use legal_chatbot_ueb_demo_s.Ingestion.Chunking.{
  BlockKind, NormalizedBlock, NormalizedDocument, IngestionSettings, ChunkDraft, select_end,
  preferred, chunk,
}
use legal_chatbot_ueb_demo_s.Ingestion.Chunking.Bounds.{select_end_bounds, select_end_prefers}
use legal_chatbot_ueb_demo_s.Ingestion.Chunking.Coverage.{
  Covers, chunk-Covers, stitch, chunks_reassemble,
}

abbrev repeated : ℕ → Text → Text
repeated zero text = []
repeated (suc n) text = text ++ repeated n text

abbrev some_document : NormalizedDocument
some_document = record {
  text = repeated 100 (b'l' ∷ b'a' ∷ b'w' ∷ []);
  blocks =
      record { kind = BlockKind.article; label = some "1"; text = []; start = 0; end = 150 }
      ∷ record { kind = BlockKind.paragraph; label = none; text = []; start = 150; end = 300 }
      ∷ [];
}

abbrev some_settings : IngestionSettings
some_settings = record { chunk_max_chars = 200; chunk_overlap_chars = 20 }

abbrev constant_digest : Text → String
constant_digest text = "0"

select_end_bounds_example :
    (0 < select_end some_settings some_document 0)
    × (select_end some_settings some_document 0 ≤ 200)
    × (select_end some_settings some_document 0 ≤ 300)
    × ((select_end some_settings some_document 0 ≡ 300)
        ⊎ (20 < select_end some_settings some_document 0))
select_end_bounds_example = select_end_bounds some_settings some_document 0 refl (omega arith)

abbrev first_block : NormalizedBlock
first_block = record { kind = BlockKind.article; label = some "1"; text = []; start = 0; end = 150 }

select_end_prefers_example :
    (150 ≤ select_end some_settings some_document 0)
    × (c : NormalizedBlock) × Memᴰ c some_document.blocks
    × (preferred some_settings 300 0 200 c ≡ true)
    × (c.end ≡ select_end some_settings some_document 0)
select_end_prefers_example =
    select_end_prefers some_settings some_document 0 first_block (Memᴰ.head refl) refl

chunk-Covers_example :
    (cs : List ChunkDraft) × (chunk constant_digest some_settings some_document ≡ ok cs)
    × Covers constant_digest some_settings some_document 0 0 cs
chunk-Covers_example = chunk-Covers constant_digest some_settings some_document refl

chunks_reassemble_example :
    (cs : List ChunkDraft) × (chunk constant_digest some_settings some_document ≡ ok cs)
    × (stitch 0 cs ≡ some_document.text)
chunks_reassemble_example = chunks_reassemble constant_digest some_settings some_document refl
