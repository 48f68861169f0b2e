-- ===== src/Understanding/Structure.antt =====
-- The structure analyzer (packages/understanding/services.py): blocks of a text, line by line. What
-- the regular expressions and `str` methods say of one line is a parameter.
pub mod Spans
use mathlib.Core.Logic.{ite}
use leanlm.Common.{
  ℕ, zero, suc, ◌+◌, ◌-◌, ◌≤◌, min, Bool, true, false, not, ◌&&◌, ◌||◌, Option, none, some, List,
  [], ◌∷◌, ◌++◌, ltb, leb, ◌==◌, if◌then◌else◌, length, any, all, keep, total, is_empty,
}
use leanlm.Shared.Text.{Text, codes, starts_with, ends_with, join_with}
use leanlm.Contracts.Dto.{UnitKind, UnitKind-discrete, heading, paragraph, list, table, code}

pub record Block : Type 0 where
  pub kind : UnitKind
  pub text : Text
  pub char_start : ℕ
  pub char_end : ℕ
  pub heading_level : ℕ

-- The patterns of the module, and the methods of `str`.
pub record LinePatterns : Type 0 where
  pub strip : Text → Text
  pub split_whitespace : Text → List Text
  pub is_alpha : ℕ → Bool
  pub is_upper : ℕ → Bool
  pub is_fence : Text → Bool
  -- the number of marks, and the title
  pub atx : Text → Option (ℕ × Text)
  pub is_setext : Text → Bool
  pub is_numbered : Text → Bool
  pub is_table : Text → Bool
  pub is_bullet : Text → Bool

-- `text.split("\n")`
abbrev pub lines_from : Text → Text → List Text
lines_from begun [] = begun ∷ []
lines_from begun (c ∷ cs) =
    let rest = lines_from (if c == 10 then [] else begun ++ c ∷ []) cs in
    if c == 10 then begun ∷ rest else rest

abbrev pub split_lines : Text → List Text
split_lines text = lines_from [] text

-- How often a character occurs.
abbrev pub count_char : ℕ → Text → ℕ
count_char c text = length (keep (λ x. x == c) text)

abbrev pub first_of : List Text → Text
first_of [] = []
first_of (x ∷ xs) = x

-- What a line is. The branches of the loop, in their order.
pub data Line : Type 0 where
  fence fenced blank : Line
  -- the title and the level; an underlined one takes the next line too
  title underlined : Text → ℕ → Line
  body : UnitKind → Line

-- The variables of the loop.
pub record Scan : Type 0 where
  pub blocks : List Block
  pub buffer : List Text
  pub buffer_start : ℕ
  pub buffer_kind : UnitKind
  pub in_fence : Bool

module _ (re : LinePatterns) where
  unfoldable pub looks_like_heading : Text → Text → Bool
  unfolding ends_with
  looks_like_heading line following =
      let stripped = re.strip line in
      if ltb 110 (length stripped)
        || (ends_with stripped (codes ".")
            || (ends_with stripped (codes ";") || ends_with stripped (codes ",")))
      then false
      else not (is_empty (re.strip following)) || leb (length (re.split_whitespace stripped)) 12

  unfoldable pub is_caps_heading : Text → Bool
  unfolding ends_with
  is_caps_heading line =
      let stripped = re.strip line in
      let letters = keep re.is_alpha stripped in
      if not (leb 3 (length stripped) && leb (length stripped) 90) || ends_with stripped (codes ".")
      then false
      else if ltb (length letters) 3
      then false
      else all re.is_upper letters && leb (length (re.split_whitespace stripped)) 10

  -- `nxt` is empty after the last line.
  unfoldable pub classify : Bool → Text → Text → Line
  unfolding looks_like_heading is_caps_heading
  classify in_fence line nxt =
      let stripped = re.strip line in
      if re.is_fence line
      then fence
      else if in_fence
      then fenced
      else if is_empty stripped
      then blank
      else elim (re.atx line) [
        | some (level, text) ↦ title text level
        | none ↦
            if re.is_setext nxt && leb (length stripped) 120
            then underlined stripped (if starts_with (re.strip nxt) (codes "=") then 1 else 2)
            else if re.is_numbered stripped && looks_like_heading line nxt
            then title stripped
                (min 6 (count_char b'.' (first_of (re.split_whitespace stripped)) + 1))
            else if is_caps_heading line
            then title stripped 2
            else body
                (if re.is_table line then table else if re.is_bullet line then list else paragraph)
      ]

  -- `flush`; blank bodies leave no block.
  unfoldable pub flush : ℕ → Scan → Scan
  flush at st =
      let text = re.strip (join_with (10 ∷ []) st.buffer) in
      if is_empty st.buffer then st else record st {
        blocks =
            if is_empty text
            then st.blocks
            else st.blocks
              ++ record {
                kind = st.buffer_kind;
                text = text;
                char_start = st.buffer_start;
                char_end = at;
                heading_level = 0;
              }
                ∷ [];
        buffer = [];
        buffer_kind = paragraph;
      }

  abbrev heading_block : Text → ℕ → ℕ → ℕ → Block
  heading_block text level start stop = record {
    kind = heading;
    text = text;
    char_start = start;
    char_end = stop;
    heading_level = level;
  }

  -- A title ends the block before it and is a block of its own.
  unfoldable pub put_title : Text → ℕ → ℕ → ℕ → Scan → Scan
  unfolding flush
  put_title text level start stop st =
      let flushed = flush start st in
      record flushed { blocks = flushed.blocks ++ heading_block text level start stop ∷ [] }

  -- The line starts a block where there is none.
  unfoldable pub add_line : UnitKind → Text → ℕ → Scan → Scan
  add_line kind line start st =
      if is_empty st.buffer
      then record st { buffer_start = start; buffer_kind = kind; buffer = line ∷ [] }
      else record st { buffer = st.buffer ++ line ∷ [] }

  -- A line of another kind ends the block before it.
  unfoldable pub put_body : UnitKind → Text → ℕ → Scan → Scan
  unfolding flush add_line UnitKind-discrete
  put_body kind line start st =
      let same = ite (UnitKind-discrete kind st.buffer_kind) true false in
      add_line kind line start (if not (is_empty st.buffer) && not same then flush start st else st)

  -- The line that ends a fence belongs to its block.
  unfoldable pub close_fence : Text → ℕ → Scan → Scan
  unfolding flush
  close_fence line start st =
      record (flush (start + length line) (record st { buffer = st.buffer ++ line ∷ [] })) {
        in_fence = false;
      }

  unfoldable pub open_fence : Text → ℕ → Scan → Scan
  unfolding flush
  open_fence line start st = record (flush start st) {
    in_fence = true;
    buffer_start = start;
    buffer_kind = code;
    buffer = line ∷ [];
  }

  unfoldable pub put_fence : Text → ℕ → Scan → Scan
  unfolding close_fence open_fence
  put_fence line start st =
      if st.in_fence then close_fence line start st else open_fence line start st

  -- The body of the loop, by what the line is.
  unfoldable pub put_line : Line → Text → ℕ → Scan → Scan
  unfolding put_fence put_title put_body flush
  put_line fence line start st = put_fence line start st
  put_line fenced line start st = record st { buffer = st.buffer ++ line ∷ [] }
  put_line blank line start st = flush start st
  put_line (title text level) line start st = put_title text level start (start + length line) st
  put_line (underlined text level) line start st =
      put_title text level start (start + length line) st
  put_line (body kind) line start st = put_body kind line start st

  abbrev pub takes_next : Line → Bool
  takes_next (underlined _ _) = true
  takes_next _ = false

  -- The loop; `skipped` says that the line is the underline of the title before it, and `start` is
  -- its offset.
  unfoldable pub scan_lines : Bool → ℕ → List Text → Scan → Scan
  unfolding classify put_line
  scan_lines skipped start [] st = st
  scan_lines skipped start (line ∷ rest) st =
      let kind = classify st.in_fence line (first_of rest) in
      scan_lines (not skipped && takes_next kind) (start + length line + 1) rest
        (if skipped then st else put_line kind line start st)

  unfoldable pub analyze : Text → List Block
  unfolding scan_lines flush
  analyze text =
      (flush (total (λ line. length line + 1) (split_lines text) - 1) (
        scan_lines false 0 (split_lines text) (record {
          blocks = [];
          buffer = [];
          buffer_start = 0;
          buffer_kind = paragraph;
          in_fence = false;
        }))).blocks
