-- ===== src/Ingestion/Chunking/Coverage.antt =====
-- The chunks of a document: the loop ends, never raises, and its chunks cover the text.
use native.Mathlib.Nat.{zero-add, suc-add}
use legal_chatbot_ueb_demo_s.Prelude.{
  ℕ, zero, suc, ◌+◌, ◌-◌, ◌≤◌, ◌<◌, String, ◌≡◌, refl, sym, ◌∙◌, ◌⊎◌, true, List, [], ◌∷◌, ◌++◌,
  arith, length, take, drop, ltb, ◌==◌, Bool-cases, inl, inr, if◌then◌else◌, Text, ok, ◌>>=◌,
  length-take, length-drop, take-append-drop, ap,
}
use legal_chatbot_ueb_demo_s.Ingestion.Chunking.{
  IngestionSettings, NormalizedDocument, ChunkDraft, valid_settings, select_end, slice, draft,
  next_start, chunk_from, chunk, locator,
}
use legal_chatbot_ueb_demo_s.Ingestion.Chunking.Bounds.{select_end_bounds}

module _ (sha256 : Text → String) (s : IngestionSettings) (document : NormalizedDocument) where
  -- One chunk, cut at a position of the text.
  pub record IsCut (ordinal start : ℕ) (c : ChunkDraft) : Type 0 where
    pub numbered : c.ordinal ≡ ordinal
    pub starts : c.start ≡ start
    pub not_empty : c.start < c.end
    pub inside : c.end ≤ length document.text
    pub bounded : c.end ≤ c.start + s.chunk_max_chars
    pub past_overlap : (c.end ≡ length document.text) ⊎ (c.start + s.chunk_overlap_chars < c.end)
    pub content : c.text ≡ slice c.start c.end document.text
    pub digest : c.content_sha256 ≡ sha256 c.text
    pub located : c.locator ≡ locator document.blocks c.start

  -- The chunks from a cursor on: each is cut at the cursor, the cursor moves forward by the overlap
  -- rule to a place inside the last chunk or at its end, and the last chunk ends the text.
  abbrev pub Covers : ℕ → ℕ → List ChunkDraft → Type 0
  Covers ordinal start [] = length document.text ≤ start
  Covers ordinal start (c ∷ cs) =
      IsCut ordinal start c
      × ((cs ≡ []) × (c.end ≡ length document.text)
          ⊎ (start < next_start sha256 s document start c.end)
            × (next_start sha256 s document start c.end ≤ c.end)
            × (c.end < length document.text)
            × Covers (suc ordinal) (next_start sha256 s document start c.end) cs)

  abbrev Total : ℕ → ℕ → ℕ → Type 0
  Total fuel ordinal start =
      (cs : List ChunkDraft) × (chunk_from sha256 s document fuel ordinal start ≡ ok cs)
      × Covers ordinal start cs

  length-slice :
      (start end : ℕ)
      → end ≤ length document.text
      → length (slice start end document.text) ≡ end - start
  length-slice start end h =
      omega (
        arith,
        length-take (end - start) (drop start document.text),
        length-drop start document.text,
      )

  module _ (ok_settings : valid_settings s ≡ true) where
    -- One round at a cursor inside the text: no validator refuses its chunk.
    round :
        (fuel ordinal start : ℕ)
        → start < length document.text
        → let end = select_end s document start in
          let c = draft sha256 s document ordinal start end in
          IsCut ordinal start c
          × (chunk_from sha256 s document (suc fuel) ordinal start ≡ (
              if end == length document.text then ok (c ∷ []) else (do
                cs ←
                    chunk_from sha256 s document fuel
                      (suc ordinal)
                      (next_start sha256 s document start end)
                ok (c ∷ cs))))
    unfolding chunk_from
    round fuel ordinal start inside =
        let (ahead, near, within, past) = select_end_bounds s document start ok_settings inside in
        let long = length-slice start (select_end s document start) within in
        (
          record {
            numbered = refl;
            starts = refl;
            not_empty = ahead;
            inside = within;
            bounded = near;
            past_overlap = past;
            content = refl;
            digest = refl;
            located = refl;
          },
          ground arith,
        )

    chunk_from-Total :
        (fuel ordinal start : ℕ)
        → length document.text < fuel + start
        → start ≤ length document.text
        → Total fuel ordinal start
    chunk_from-Total zero ordinal start fuel_left inside = absurd (omega arith)
    chunk_from-Total (suc fuel) ordinal start fuel_left inside =
        let len : ℕ = length document.text in
        let end : ℕ = select_end s document start in
        let c : ChunkDraft = draft sha256 s document ordinal start end in
        elim (Bool-cases (ltb start len)) [
          | inr done ↦ ([], unfold chunk_from in ground arith, ground arith)
          | inl going ↦
              let (cut, step) = round fuel ordinal start (ground arith) in
              let (ahead, near, within, past) =
                select_end_bounds s document start ok_settings (ground arith) in
              elim (Bool-cases (end == len)) [
                | inl last ↦ (c ∷ [], rw step (rw last), (cut, inl (refl, ground arith)))
                | inr more ↦
                    let (cs, run, covers) =
                      chunk_from-Total fuel (suc ordinal) (next_start sha256 s document start end)
                        (ground arith) (ground arith) in
                    (
                      c ∷ cs,
                      rw step (rw (more, run)),
                      (cut, inr (ground arith, ground arith, ground arith, covers)),
                    )
              ]
        ]

-- For settings that pass their validators, the chunker ends, raises nothing, and returns chunks that
-- cover the text: the first starts at 0, each is a non-empty slice of at most `chunk_max_chars`
-- characters with its digest and locator, numbered in order, the next starts by the overlap rule
-- strictly later and leaves no gap, and the last one ends where the text ends.
pub chunk-Covers :
    (sha256 : Text → String) (s : IngestionSettings) (document : NormalizedDocument)
    → valid_settings s ≡ true
    → (cs : List ChunkDraft) × (chunk sha256 s document ≡ ok cs) × Covers sha256 s document 0 0 cs
unfolding chunk
chunk-Covers sha256 s document ok_settings =
    chunk_from-Total sha256 s document ok_settings (suc (length document.text)) 0 0 (omega arith)
      (omega arith)

-- The chunk texts put together again, each without what the one before it has already given.
unfoldable pub stitch : ℕ → List ChunkDraft → Text
stitch given [] = []
stitch given (c ∷ cs) = drop (given - c.start) c.text ++ stitch c.end cs

drop-nil : (n : ℕ) → ◌≡◌ {A = Text} (drop n []) []
drop-nil zero = refl
drop-nil (suc n) = refl

drop-drop : (m n : ℕ) (text : Text) → drop n (drop m text) ≡ drop (m + n) text
drop-drop zero n text = rw zero-add
drop-drop (suc m) n [] = drop-nil n ∙ sym (drop-nil (suc m + n))
drop-drop (suc m) n (x ∷ text) = rw suc-add (drop-drop m n text)

drop-take : (d n : ℕ) (text : Text) → d ≤ n → drop d (take n text) ++ drop n text ≡ drop d text
drop-take zero n text h = take-append-drop n text
drop-take (suc d) zero text h = elim h [ ]
drop-take (suc d) (suc n) [] h = refl
drop-take (suc d) (suc n) (x ∷ text) h = drop-take d n text (omega arith)

drop-slice :
    (start given end : ℕ) (text : Text)
    → start ≤ given
    → given ≤ end
    → drop (given - start) (slice start end text) ++ drop end text ≡ drop given text
drop-slice start given end text h k =
    let rejoin = drop-take (given - start) (end - start) (drop start text) (omega arith) in
    let e1 : drop (end - start) (drop start text) ≡ drop end text =
      drop-drop start (end - start) text ∙ ap (λ n. drop n text) (omega arith) in
    let e2 : drop (given - start) (drop start text) ≡ drop given text =
      drop-drop start (given - start) text ∙ ap (λ n. drop n text) (omega arith) in
    cc (rejoin, e1, e2)

drop_all : (n : ℕ) (text : Text) → length text ≤ n → drop n text ≡ []
drop_all zero [] h = refl
drop_all zero (x ∷ text) h = elim h [ ]
drop_all (suc n) [] h = refl
drop_all (suc n) (x ∷ text) h = drop_all n text (omega arith)

-- The position lies in the first chunk or at its end.
abbrev WithinFirst : ℕ → List ChunkDraft → Type 0
WithinFirst given [] = Unit
WithinFirst given (c ∷ cs) = given ≤ c.end

module _ (sha256 : Text → String) (s : IngestionSettings) (document : NormalizedDocument) where
  -- The first chunk goes on to the end of the one before it.
  reaches :
      (cs : List ChunkDraft) (ordinal start given : ℕ)
      → Covers sha256 s document ordinal start cs
      → given ≤ start + s.chunk_overlap_chars
      → given ≤ length document.text
      → WithinFirst given cs
  reaches [] ordinal start given covers h k = tt
  reaches (c ∷ cs) ordinal start given (cut, _) h k =
      ground (arith, cut.past_overlap, cut.starts, cut.inside)

  -- One more chunk before chunks that give the rest.
  rejoin :
      {ordinal start : ℕ} (c : ChunkDraft) (cs : List ChunkDraft) (given : ℕ)
      → c.start ≤ given
      → given ≤ c.end
      → IsCut sha256 s document ordinal start c
      → stitch c.end cs ≡ drop c.end document.text
      → stitch given (c ∷ cs) ≡ drop given document.text
  unfolding stitch
  rejoin c cs given h k cut rest =
      rw (cut.content, rest) (drop-slice c.start given c.end document.text h k)

  stitch-Covers :
      (cs : List ChunkDraft) (ordinal start given : ℕ)
      → Covers sha256 s document ordinal start cs
      → start ≤ given
      → WithinFirst given cs
      → stitch given cs ≡ drop given document.text
  unfolding stitch
  stitch-Covers [] ordinal start given covers h k = sym (drop_all given document.text (omega arith))
  stitch-Covers (c ∷ cs) ordinal start given (cut, inl (last, at_end)) h k =
      rejoin c cs given (rw (← cut.starts) at h) k cut
        (rw last (sym (drop_all c.end document.text (omega arith))))
  stitch-Covers (c ∷ cs) ordinal start given (cut, inr (ahead, overlap, before, covers)) h k =
      rejoin c cs given (rw (← cut.starts) at h) k cut (
        stitch-Covers cs (suc ordinal) _ c.end covers overlap
          (reaches cs (suc ordinal) _ c.end covers (ground arith) cut.inside))

-- Under valid settings `chunk` raises nothing and nothing of the text is lost or doubled: the chunks of
-- a document, put together without their overlaps, are its text.
pub chunks_reassemble :
    (sha256 : Text → String) (s : IngestionSettings) (document : NormalizedDocument)
    → valid_settings s ≡ true
    → (cs : List ChunkDraft) × (chunk sha256 s document ≡ ok cs) × (stitch 0 cs ≡ document.text)
chunks_reassemble sha256 s document ok_settings =
    let (cs, run, covers) = chunk-Covers sha256 s document ok_settings in
    (
      cs,
      run,
      stitch-Covers sha256 s document cs 0 0 0 covers (omega arith)
          (reaches sha256 s document cs 0 0 0 covers (omega arith) (omega arith)),
    )
