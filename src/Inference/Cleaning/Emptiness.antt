-- ===== src/Inference/Cleaning/Emptiness.antt =====
-- When a cleaned generation is empty (packages/inference/cleaning.py).
use leanlm.Common.{
  ◌≡◌, refl, sym, subst, Bool, true, false, ◌⊎◌, inl, inr, List, [], ◌∷◌, ◌++◌, append_assoc,
  is_empty, length, ltb, if-ind, if◌then◌else◌, drop,
}
use leanlm.Shared.Errors.{Option-ind}
use leanlm.Shared.Text.{Text}
use leanlm.Inference.Cleaning.{
  CleaningLibrary, strip_tool_scaffolding, strip_thinking, extract_final_answer, Note,
  reasoning_removed, only_reasoning, finish_cleaning, clean_generation,
}

-- What `str.strip` is known to do: once is enough.
abbrev pub StripsOnce : CleaningLibrary → Type 0
StripsOnce lib = (t : Text) → lib.strip (lib.strip t) ≡ lib.strip t

module _ (lib : CleaningLibrary) where
  -- Either there is text, or what the model gave, without tool banners, has thinking blocks and
  -- nothing else, and the last note says so.
  abbrev pub IsExplained : Text → Text × List Note → Type 0
  IsExplained text out =
      (is_empty out.0 ≡ false)
      ⊎ ((strip_thinking lib text).1 ≡ true)
        × (is_empty (strip_thinking lib text).0 ≡ true)
        × ((notes : List Note) × (out.1 ≡ notes ++ only_reasoning ∷ []))

module _ (lib : CleaningLibrary) (once : StripsOnce lib) where
  -- Text that strips to itself.
  abbrev IsSolid : Text → Type 0
  IsSolid t = (is_empty t ≡ false) × (lib.strip t ≡ t)

  choice-IsSolid :
      (raw given : Text)
      → is_empty (lib.strip given) ≡ false
      → IsSolid (if is_empty (lib.strip raw) then lib.strip given else lib.strip raw)
  choice-IsSolid raw given full =
      if-ind IsSolid (is_empty (lib.strip raw)) (λ _. (full, once given)) (λ kept. (kept, once raw))

  strip_tool_scaffolding-IsSolid :
      (given prompt : Text)
      → is_empty (lib.strip given) ≡ false
      → IsSolid (strip_tool_scaffolding lib given prompt).0
  unfolding strip_tool_scaffolding
  strip_tool_scaffolding-IsSolid given prompt full = choice-IsSolid _ given full

  long_enough : (t : Text) → ltb (length t) 8 ≡ false → is_empty t ≡ false
  long_enough [] h = cc h
  long_enough (c ∷ cs) h = refl

  extract-IsSolid : (text : Text) → IsSolid text → IsSolid (extract_final_answer lib text).0
  unfolding extract_final_answer
  extract-IsSolid text h =
      Option-ind (λ (out : Text × Bool). IsSolid out.0) (lib.last_answer text)
        (λ stop _.
          let tail = lib.strip (drop stop text) in
          if-ind (λ (out : Text × Bool). IsSolid out.0) (ltb (length tail) 8) (λ _. h)
            (λ long. (long_enough tail long, once (drop stop text))))
        (λ _. h)

  finish-IsExplained :
      (whole text : Text) (notes : List Note)
      → IsSolid text
      → IsExplained lib whole (finish_cleaning lib text notes)
  unfolding finish_cleaning
  finish-IsExplained whole text notes h =
      let solid = extract-IsSolid text h in
      inl (subst (λ t. is_empty t ≡ false) (sym solid.1) solid.0)

-- Text is never dropped in silence: if the output of the model is not blank, what is left after the
-- cleaning is not empty, unless the text without the tool's banners has thinking blocks and is empty
-- once they are removed, and then the last note says that there was nothing but reasoning; this is
-- so when stripping a second time changes nothing.
pub clean_generation-IsExplained :
    (lib : CleaningLibrary) (given prompt : Text)
    → StripsOnce lib
    → is_empty (lib.strip given) ≡ false
    → IsExplained lib
        (strip_tool_scaffolding lib given prompt).0
        (clean_generation lib given prompt)
unfolding clean_generation strip_thinking
clean_generation-IsExplained lib given prompt once full =
    let text = (strip_tool_scaffolding lib given prompt).0 in
    let stripped = (strip_thinking lib text).0 in
    if-ind (IsExplained lib text) (strip_thinking lib text).1
      (λ thinking.
        if-ind (IsExplained lib text) (is_empty stripped)
          (λ nothing. inr (
            thinking,
            nothing,
            (_, sym (append_assoc _ (reasoning_removed ∷ []) (only_reasoning ∷ []))),
          ))
          (λ left. finish-IsExplained lib once text stripped _ (left, once _)))
      (λ _.
        finish-IsExplained lib once text text _
          (strip_tool_scaffolding-IsSolid lib once given prompt full))
