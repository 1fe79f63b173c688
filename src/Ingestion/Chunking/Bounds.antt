-- ===== src/Ingestion/Chunking/Bounds.antt =====
-- Where a chunk ends, and how the cursor moves.
use mathlib.Core.List.{Memᴰ}
use legal_chatbot_ueb_demo_s.Prelude.{
  ℕ, ◌+◌, ◌≤◌, ◌<◌, ◌≡◌, ◌⊎◌, Bool, true, List, [], ◌∷◌, some, arith, min, max, length, leb,
  Bool-cases, Option-cases, inl, inr, refl,
}
use legal_chatbot_ueb_demo_s.Ingestion.Chunking.{
  IngestionSettings, NormalizedBlock, NormalizedDocument, valid_settings, preferred, furthest,
  select_end,
}

-- What `furthest` returns is the end of one of the blocks, one that satisfies its test.
furthest-some :
    (p : NormalizedBlock → Bool) (bs : List NormalizedBlock) (e : ℕ)
    → furthest p bs ≡ some e
    → (b : NormalizedBlock) × Memᴰ b bs × (p b ≡ true) × (b.end ≡ e)
unfolding furthest
furthest-some p [] e h = absurd (ground arith)
furthest-some p (b ∷ bs) e h = elim (Bool-cases (p b)) [
  | inr skip ↦
      let (c, m, good, at_end) = furthest-some p bs e (ground arith) in
      (c, Memᴰ.tail m, good, at_end)
  | inl take_it ↦ elim (Option-cases (furthest p bs)) [
    | inl last ↦ (b, Memᴰ.head refl, take_it, ground arith)
    | inr (f, more) ↦
        let (c, m, good, at_end) = furthest-some p bs f more in
        elim (Bool-cases (leb f b.end)) [
          | inl far ↦ (b, Memᴰ.head refl, take_it, ground arith)
          | inr near ↦ (c, Memᴰ.tail m, good, ground arith)
        ]
  ]
]

furthest_ge :
    (p : NormalizedBlock → Bool) (bs : List NormalizedBlock) (b : NormalizedBlock)
    → Memᴰ b bs
    → p b ≡ true
    → (e : ℕ) × (furthest p bs ≡ some e) × (b.end ≤ e)
unfolding furthest
furthest_ge p [] b m h = elim m [ ]
furthest_ge p (x ∷ bs) b (Memᴰ.head same) h = elim (Option-cases (furthest p bs)) [
  | inl last ↦ (x.end, ground arith, ground arith)
  | inr (f, more) ↦ (max x.end f, ground arith, ground arith)
]
furthest_ge p (x ∷ bs) b (Memᴰ.tail m) h =
    let (e, at_e, le) = furthest_ge p bs b m h in
    elim (Bool-cases (p x)) [
      | inl take_it ↦ (max x.end e, ground arith, omega arith)
      | inr skip ↦ (e, ground arith, le)
    ]

-- The end that is chosen lies behind the start, at most `chunk_max_chars` on, inside the text, and
-- further on than the overlap unless it is the end of the text.
pub select_end_bounds :
    (s : IngestionSettings) (document : NormalizedDocument) (start : ℕ)
    → valid_settings s ≡ true
    → start < length document.text
    → (start < select_end s document start)
      × (select_end s document start ≤ start + s.chunk_max_chars)
      × (select_end s document start ≤ length document.text)
      × ((select_end s document start ≡ length document.text)
          ⊎ (start + s.chunk_overlap_chars < select_end s document start))
unfolding select_end
select_end_bounds s document start ok_settings inside =
    elim (Option-cases (
      furthest
        (preferred s (length document.text) start
          (min (start + s.chunk_max_chars) (length document.text)))
        document.blocks)) [
          | inl none_fits ↦ ground arith
          | inr (e, fits) ↦
              let (b, m, good, at_end) = furthest-some _ document.blocks e fits in ground arith
        ]

-- Whenever some block of the document ends within reach, and not so near that the overlap would undo
-- the progress, the chunk ends at the end of such a block of the document, and no
-- earlier than that block.
pub select_end_prefers :
    (s : IngestionSettings) (document : NormalizedDocument) (start : ℕ) (b : NormalizedBlock)
    → let len = length document.text in
      let test = preferred s len start (min (start + s.chunk_max_chars) len) in
      Memᴰ b document.blocks
      → test b ≡ true
      → (b.end ≤ select_end s document start)
        × (c : NormalizedBlock) × Memᴰ c document.blocks
        × (test c ≡ true)
        × (c.end ≡ select_end s document start)
unfolding select_end
select_end_prefers s document start b m h =
    let len = length document.text in
    let test = preferred s len start (min (start + s.chunk_max_chars) len) in
    let (e, at_e, le) = furthest_ge test document.blocks b m h in
    let (c, n, good, at_end) = furthest-some test document.blocks e at_e in
    (ground arith, c, n, good, ground arith)
