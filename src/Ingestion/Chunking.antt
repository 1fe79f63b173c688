-- ===== src/Ingestion/Chunking.antt =====
-- ingestion/chunking.py, with the contracts of ingestion/models.py and ingestion/config.py that it
-- uses. A text is the list of its code points; `sha256` stands for the digest of its UTF-8 bytes. The
-- constant `chunker_version` of a draft is left out.
pub mod Bounds
pub mod Coverage
use legal_chatbot_ueb_demo_s.Prelude.{
  ℕ, zero, suc, ◌+◌, ◌-◌, String, Bool, true, false, not, ◌&&◌, ◌||◌, Option, none, some, List, [],
  ◌∷◌, min, max, Text, length, take, drop, ltb, leb, ◌==◌, if◌then◌else◌, Result, ok, err, ◌>>=◌,
  ◌>>◌, require,
}

pub data BlockKind : Type 0 where
  paragraph chapter section article clause item : BlockKind

pub record NormalizedBlock : Type 0 where
  pub kind : BlockKind
  pub label : Option String
  pub text : Text
  pub start : ℕ
  pub end : ℕ

pub record NormalizedDocument : Type 0 where
  pub text : Text
  pub blocks : List NormalizedBlock

pub record IngestionSettings : Type 0 where
  pub chunk_max_chars : ℕ
  pub chunk_overlap_chars : ℕ

-- The field bounds and `validate_chunk_overlap` of `IngestionSettings`.
abbrev pub valid_settings : IngestionSettings → Bool
valid_settings s =
    leb 200 s.chunk_max_chars
    && leb s.chunk_max_chars 8000
    && leb s.chunk_overlap_chars 7999
    && ltb s.chunk_overlap_chars s.chunk_max_chars

pub record Locator : Type 0 where
  pub kind : BlockKind
  pub label : Option String

pub record ChunkDraft : Type 0 where
  pub ordinal : ℕ
  pub start : ℕ
  pub end : ℕ
  pub text : Text
  pub content_sha256 : String
  pub locator : Option Locator

-- `RuntimeError`, pydantic's `ValidationError`, and the model's own: the fuel has run out.
pub data ChunkError : Type 0 where
  no_progress validation_error out_of_fuel : ChunkError

-- `text[start:end]`
abbrev pub slice : ℕ → ℕ → Text → Text
slice start end text = take (end - start) (drop start text)

-- The validators of `ChunkDraft` that its digest does not meet by construction.
valid_draft : ChunkDraft → Bool
valid_draft c =
    ltb c.start c.end
    && c.end - c.start == length c.text
    && leb 1 (length c.text)
    && leb (length c.text) 8000

-- The condition of the comprehension in `_select_end`.
abbrev pub preferred : IngestionSettings → ℕ → ℕ → ℕ → NormalizedBlock → Bool
preferred s len start ceiling block =
    ltb start block.end
    && leb block.end ceiling
    && (block.end == len || ltb (start + s.chunk_overlap_chars) block.end)

-- `max(..., default=ceiling)` over the ends of the preferred blocks.
furthest : (NormalizedBlock → Bool) → List NormalizedBlock → Option ℕ
furthest p [] = none
furthest p (b ∷ bs) =
    let rest = furthest p bs in
    if p b then some (elim rest [ none ↦ b.end | some e ↦ max b.end e ]) else rest

abbrev default {ℓ} : {A : Type ℓ} → A → Option A → A
default d none = d
default d (some a) = a

pub select_end : IngestionSettings → NormalizedDocument → ℕ → ℕ
unfolding furthest
select_end s document start =
    let len = length document.text in
    let ceiling = min (start + s.chunk_max_chars) len in
    default ceiling (furthest (preferred s len start ceiling) document.blocks)

abbrev is_paragraph : BlockKind → Bool
is_paragraph BlockKind.paragraph = true
is_paragraph _ = false

abbrev pub structural : ℕ → NormalizedBlock → Bool
structural position b = not (is_paragraph b.kind) && leb b.start position

-- `max(structural, key=lambda block: block.start)`: the first of the greatest.
latest : (NormalizedBlock → Bool) → List NormalizedBlock → Option NormalizedBlock
latest p [] = none
latest p (b ∷ bs) =
    let rest = latest p bs in
    if p b
    then some (elim rest [ none ↦ b | some c ↦ if ltb b.start c.start then c else b ])
    else rest

-- `_locator`
pub locator : List NormalizedBlock → ℕ → Option Locator
unfolding latest
locator blocks position = elim (latest (structural position) blocks) [
  | none ↦ none
  | some b ↦ some (record { kind = b.kind; label = b.label })
]

module _ (sha256 : Text → String) (s : IngestionSettings) (document : NormalizedDocument) where
  abbrev draft : ℕ → ℕ → ℕ → ChunkDraft
  draft ordinal start end =
      let text = slice start end document.text in
      record {
        ordinal = ordinal;
        start = start;
        end = end;
        text = text;
        content_sha256 = sha256 text;
        locator = locator document.blocks start;
      }

  abbrev next_start : ℕ → ℕ → ℕ
  next_start start end =
      if ltb (start + s.chunk_overlap_chars) end then end - s.chunk_overlap_chars else end

  -- The `while` loop of `chunk`, from the cursor on.
  chunk_from : ℕ → ℕ → ℕ → Result ChunkError (List ChunkDraft)
  unfolding valid_draft
  chunk_from zero ordinal start = err out_of_fuel
  chunk_from (suc fuel) ordinal start =
      let len = length document.text in
      let end = select_end s document start in
      let c = draft ordinal start end in
      let rest = chunk_from fuel (suc ordinal) (next_start start end) in
      let more : Result ChunkError (List ChunkDraft) = (do cs ← rest; ok (c ∷ cs)) in
      if ltb start len
      then (do
        require (leb 1 (length c.text)) no_progress
        require (valid_draft c) validation_error
        if end == len then ok (c ∷ []) else more)
      else ok []

  -- One round for each position of the text, and one to leave the loop.
  pub chunk : Result ChunkError (List ChunkDraft)
  unfolding chunk_from
  chunk = chunk_from (suc (length document.text)) 0 0
