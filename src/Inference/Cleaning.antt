-- ===== src/Inference/Cleaning.antt =====
-- The cleaning of a generation (packages/inference/cleaning.py). The regular expressions and the
-- methods of `str` that depend on Unicode tables are parameters; positions are code points.
pub mod Thinking
pub mod Emptiness
use leanlm.Common.{
  ℕ, zero, suc, ◌+◌, ltb, ◌==◌, String, Bool, true, false, not, ◌&&◌, ◌||◌, Option, none, some,
  List, [], ◌∷◌, ◌++◌, map, any, drop, length, is_empty, if◌then◌else◌,
}
use leanlm.Shared.Text.{Text, codes, starts_with, ends_with, same_path, same_text, take, join_with}

-- An opening marker with the place where it begins and ends, and the end of the first closing one
-- from a position on.
pub record ThinkBlock : Type 0 where
  pub opener : Text → Option (ℕ × ℕ)
  pub closer : Text → ℕ → Option ℕ

pub record CleaningLibrary : Type 0 where
  pub strip : Text → Text
  pub lstrip : Text → Text
  -- `text.lstrip(">")`
  pub lstrip_marks : Text → Text
  pub lower : Text → Text
  pub splitlines : Text → List Text
  pub think_blocks : List ThinkBlock
  -- `_TRAILING_NOISE.sub("", text)`
  pub remove_noise : Text → Text
  -- the end of the last match of `_FINAL_ANSWER`
  pub last_answer : Text → Option ℕ

abbrev banner_markers : List Text
banner_markers =
    codes "available commands:" ∷ codes "/exit or ctrl+c" ∷ codes "loading model..." ∷ []

-- `text.find(part, from)`, with the position of what is looked at.
abbrev find_at : ℕ → Text → Text → Option ℕ
find_at pos part [] = if is_empty part then some pos else none
find_at pos part (c ∷ cs) =
    let rest = find_at (pos + 1) part cs in if starts_with (c ∷ cs) part then some pos else rest

abbrev find_from : ℕ → Text → Text → Option ℕ
find_from start part text = find_at start part (drop start text)

-- `text.rfind(part)`
abbrev rfind_at : ℕ → Text → Text → Option ℕ
rfind_at pos part [] = if is_empty part then some pos else none
rfind_at pos part (c ∷ cs) =
    let rest = rfind_at (pos + 1) part cs in
    elim rest [
      | some later ↦ some later
      | none ↦ if starts_with (c ∷ cs) part then some pos else none
    ]

-- What follows the line of a position.
abbrev after_line : ℕ → Text → Text
after_line index text = elim (find_from index (10 ∷ []) text) [
  | none ↦ []
  | some cut ↦ drop (cut + 1) text
]

abbrev pub remove_span : ThinkBlock → ℕ × ℕ → Text → Text
remove_span b span text = elim (b.closer text span.1) [
  | none ↦ take span.0 text
  | some stop ↦ take span.0 text ++ drop stop text
]

-- The `while` loop for one kind of block.
abbrev pub strip_blocks : ℕ → ThinkBlock → Text → Text × Bool
strip_blocks zero b text = (text, false)
strip_blocks (suc fuel) b text = elim (b.opener text) [
  | none ↦ (text, false)
  | some span ↦ ((strip_blocks fuel b (remove_span b span text)).0, true)
]

abbrev strip_kinds : List ThinkBlock → Text → Text × Bool
strip_kinds [] text = (text, false)
strip_kinds (b ∷ bs) text =
    let (shorter, found) = strip_blocks (length text) b text in
    let (last, later) = strip_kinds bs shorter in (last, found || later)

-- The first lines that are empty or begin with a slash.
abbrev drop_commands : CleaningLibrary → List Text → List Text
drop_commands lib [] = []
drop_commands lib (l ∷ ls) =
    let rest = drop_commands lib ls in
    if is_empty (lib.strip l) || starts_with (lib.lstrip l) (codes "/") then rest else l ∷ ls

abbrev unmark_first : CleaningLibrary → List Text → List Text
unmark_first lib [] = []
unmark_first lib (l ∷ ls) =
    if starts_with (lib.lstrip l) (codes ">")
    then lib.lstrip (lib.lstrip_marks (lib.lstrip l)) ∷ ls
    else l ∷ ls

-- The last line of more than eight characters, stripped; `lines` come in their order.
abbrev last_long_line : CleaningLibrary → List Text → Text
last_long_line lib [] = []
last_long_line lib (l ∷ ls) =
    let rest = last_long_line lib ls in
    if not (is_empty rest) then rest else if ltb 8 (length (lib.strip l)) then lib.strip l else []

module _ (lib : CleaningLibrary) where
  unfoldable pub strip_thinking : Text → Text × Bool
  strip_thinking text =
      let (rest, found) = strip_kinds lib.think_blocks text in (lib.strip rest, found)

  -- The loop over the banner markers.
  abbrev cut_banner : List Text → Text → Text × Bool
  cut_banner [] text = (text, false)
  cut_banner (m ∷ ms) text =
      let here = rfind_at 0 m (lib.lower text) in
      let rest = cut_banner ms (elim here [ none ↦ text | some index ↦ after_line index text ]) in
      (rest.0, elim here [ none ↦ rest.1 | some index ↦ true ])

  -- The prompt at the head of the text is cut off, up to the line of its last long one.
  abbrev cut_echo : Text → Text → Text × Bool
  cut_echo prompt text =
      let opening = take 48 (lib.strip prompt) in
      let head = lib.lstrip (lib.lstrip_marks (lib.lstrip text)) in
      let last_line = last_long_line lib (lib.splitlines prompt) in
      let index = if is_empty last_line then none else rfind_at 0 (take 60 last_line) head in
      if not (is_empty prompt) && (not (is_empty opening) && starts_with head opening)
      then (
        elim index [ none ↦ drop (length prompt) head | some place ↦ after_line place head ],
        true,
      )
      else (text, false)

  unfoldable pub strip_tool_scaffolding : Text → Text → Text × Bool
  unfolding same_path same_text
  strip_tool_scaffolding original prompt =
      let (text, banner) = cut_banner banner_markers original in
      let lines = lib.splitlines text in
      let kept = unmark_first lib (drop_commands lib lines) in
      let rejoined = join_with (10 ∷ []) kept in
      let (body, echo) = cut_echo prompt rejoined in
      let cleaned = lib.strip (lib.remove_noise body) in
      (
        if is_empty cleaned then lib.strip original else cleaned,
        banner
            || (not (same_path kept lines) || (echo || not (same_text cleaned (lib.strip body)))),
      )

  abbrev terminals : List Text
  terminals =
      codes "."
      ∷ codes "!"
      ∷ codes "?"
      ∷ codes "\""
      ∷ codes "'"
      ∷ codes ")"
      ∷ codes "]"
      ∷ codes "}"
      ∷ codes "»"
      ∷ codes "’"
      ∷ []

  unfoldable pub looks_truncated : Text → Bool
  unfolding ends_with
  looks_truncated text =
      let stripped = lib.strip text in
      not (is_empty stripped) && not (any (ends_with stripped) terminals)

  unfoldable pub extract_final_answer : Text → Text × Bool
  extract_final_answer text = elim (lib.last_answer text) [
    | none ↦ (text, false)
    | some stop ↦
        let tail = lib.strip (drop stop text) in
        if ltb (length tail) 8 then (text, false) else (tail, true)
  ]

-- What was removed or is missing; each stands for the sentence of the source.
pub data Note : Type 0 where
  banner_removed reasoning_removed only_reasoning answer_extracted cut_off : Note

abbrev note_if : Bool → Note → List Note
note_if test note = if test then note ∷ [] else []

module _ (lib : CleaningLibrary) where
  -- Once the reasoning is gone.
  unfoldable pub finish_cleaning : Text → List Note → Text × List Note
  unfolding extract_final_answer looks_truncated
  finish_cleaning text notes =
      let (answer, found) = extract_final_answer lib text in
      (
        lib.strip answer,
        notes ++ (note_if found answer_extracted ++ note_if (looks_truncated lib answer) cut_off),
      )

  unfoldable pub clean_generation : Text → Text → Text × List Note
  unfolding strip_tool_scaffolding strip_thinking finish_cleaning
  clean_generation given prompt =
      let (text, tool) = strip_tool_scaffolding lib given prompt in
      let (stripped, thinking) = strip_thinking lib text in
      let notes = note_if tool banner_removed in
      if thinking
      then if is_empty stripped
        then ([], notes ++ reasoning_removed ∷ only_reasoning ∷ [])
        else finish_cleaning stripped (notes ++ reasoning_removed ∷ [])
      else finish_cleaning text notes
