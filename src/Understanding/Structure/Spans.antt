-- ===== src/Understanding/Structure/Spans.antt =====
-- Where the blocks of the structure analyzer (packages/understanding/services.py) lie in the text.
use mathlib.Core.Logic.{ite}
use leanlm.Common.{
  leb, if-ind, subst, ℕ, ◌+◌, ◌-◌, ◌≤◌, ◌≡◌, refl, sym, ◌∙◌, Bool, true, false, not, ◌&&◌, List, [],
  ◌∷◌, ◌++◌, arith, length, length-append, total, is_empty, Bool-cases, inl, inr, ◌==◌,
  if◌then◌else◌,
}
use leanlm.Shared.Errors.{Option-ind}
use leanlm.Shared.Text.{Text, join_with}
use leanlm.Contracts.Dto.{UnitKind, UnitKind-discrete, heading, paragraph}
use leanlm.Understanding.Structure.{
  Block, LinePatterns, Line, fence, fenced, blank, title, underlined, body, Scan, lines_from,
  split_lines, looks_like_heading, is_caps_heading, classify, flush, put_title, add_line, put_body,
  close_fence, open_fence, put_fence, put_line, takes_next, scan_lines, analyze,
}

-- The blocks lie one behind the other between two positions.
abbrev pub InOrder : ℕ → List Block → ℕ → Type 0
InOrder lo [] hi = lo ≤ hi
InOrder lo (b ∷ bs) hi =
    (lo ≤ b.char_start) × (b.char_start ≤ b.char_end) × InOrder b.char_end bs hi

InOrder-le : (lo : ℕ) (bs : List Block) (m n : ℕ) → InOrder lo bs m → m ≤ n → InOrder lo bs n
InOrder-le lo [] m n h le = omega arith
InOrder-le lo (b ∷ bs) m n h le = (h.0, h.1, InOrder-le b.char_end bs m n h.2 le)

InOrder-snoc :
    (lo : ℕ) (bs : List Block) (b : Block) (hi : ℕ)
    → InOrder lo bs b.char_start
    → b.char_start ≤ b.char_end
    → b.char_end ≤ hi
    → InOrder lo (bs ++ b ∷ []) hi
InOrder-snoc lo [] b hi h le under = (h, le, under)
InOrder-snoc lo (c ∷ bs) b hi h le under = (h.0, h.1, InOrder-snoc c.char_end bs b hi h.2 le under)

-- The blocks and the open block behind them, when the text has been read up to `at`. Inside a
-- fence there is an open block.
abbrev Tidy : List Block → List Text → Bool → ℕ → ℕ → Type 0
Tidy bs [] inside start at = InOrder 0 bs at × (inside ≡ false)
Tidy bs (line ∷ buffer) inside start at = InOrder 0 bs start × (start ≤ at)

abbrev IsTidy : Scan → ℕ → Type 0
IsTidy st at = Tidy st.blocks st.buffer st.in_fence st.buffer_start at

Tidy-le :
    (bs : List Block) (buffer : List Text) (inside : Bool) (start m n : ℕ)
    → Tidy bs buffer inside start m
    → m ≤ n
    → Tidy bs buffer inside start n
Tidy-le bs [] inside start m n h le = (InOrder-le 0 bs m n h.0 le, h.1)
Tidy-le bs (line ∷ buffer) inside start m n h le = (h.0, omega arith)

Tidy-closed :
    (bs : List Block) (buffer : List Text) (inside : Bool) (start at : ℕ)
    → buffer ≡ []
    → inside ≡ false
    → InOrder 0 bs at
    → Tidy bs buffer inside start at
Tidy-closed bs [] inside start at e out h = (h, out)
Tidy-closed bs (line ∷ buffer) inside start at e out h = absurd (cc e)

-- Inside a fence one more line belongs to the open block.
Tidy-more :
    (bs : List Block) (buffer : List Text) (inside later : Bool) (start at : ℕ) (line : Text)
    → inside ≡ true
    → Tidy bs buffer inside start at
    → Tidy bs (buffer ++ line ∷ []) later start at
Tidy-more bs [] inside later start at line within h = absurd (cc (within, h.1))
Tidy-more bs (l ∷ buffer) inside later start at line within h = h

module _ (re : LinePatterns) where
  -- After `flush` there is no open block.
  abbrev Flushed : Scan → ℕ → Type 0
  Flushed st at = InOrder 0 st.blocks at × (st.buffer ≡ [])

  flush-lem :
      (bs : List Block) (buffer : List Text) (start : ℕ) (kind : UnitKind) (inside : Bool)
      (m at : ℕ)
      → Tidy bs buffer inside start m
      → m ≤ at
      → Flushed
          (flush re at (record {
            blocks = bs;
            buffer = buffer;
            buffer_start = start;
            buffer_kind = kind;
            in_fence = inside;
          }))
          at
  unfolding flush
  flush-lem bs [] start kind inside m at h le = (InOrder-le 0 bs m at h.0 le, refl)
  flush-lem bs (l ∷ ls) start kind inside m at h le =
      elim (Bool-cases (is_empty (re.strip (join_with (10 ∷ []) (l ∷ ls))))) [
        | inl nothing ↦ rw nothing (InOrder-le 0 bs start at h.0 (omega arith), refl)
        | inr something ↦
            rw something (InOrder-snoc 0 bs _ at h.0 (omega arith) (omega arith), refl)
      ]

  flush-Flushed : (st : Scan) (m at : ℕ) → IsTidy st m → m ≤ at → Flushed (flush re at st) at
  flush-Flushed st m at h le =
      flush-lem st.blocks st.buffer st.buffer_start st.buffer_kind st.in_fence m at h le

  flush-in_fence : (at : ℕ) (st : Scan) → (flush re at st).in_fence ≡ st.in_fence
  unfolding flush
  flush-in_fence at st = elim (Bool-cases (is_empty st.buffer)) [
    | inl nothing ↦ rw nothing refl
    | inr something ↦ rw something refl
  ]

  flush-IsTidy :
      (st : Scan) (start : ℕ)
      → IsTidy st start
      → st.in_fence ≡ false
      → IsTidy (flush re start st) start
  flush-IsTidy st start h out =
      let (order, closed) = flush-Flushed st start start h (omega arith) in
      Tidy-closed (flush re start st).blocks (flush re start st).buffer (flush re start st).in_fence
        (flush re start st).buffer_start start closed (flush-in_fence start st ∙ out) order

  put_title-IsTidy :
      (text : Text) (level start stop : ℕ) (st : Scan)
      → IsTidy st start
      → st.in_fence ≡ false
      → start ≤ stop
      → IsTidy (put_title re text level start stop st) stop
  unfolding put_title
  put_title-IsTidy text level start stop st h out le =
      let (order, closed) = flush-Flushed st start start h (omega arith) in
      let b : Block = record {
        kind = heading;
        text = text;
        char_start = start;
        char_end = stop;
        heading_level = level;
      } in
      Tidy-closed ((flush re start st).blocks ++ b ∷ []) (flush re start st).buffer
        (flush re start st).in_fence (flush re start st).buffer_start stop closed
        (flush-in_fence start st ∙ out)
        (InOrder-snoc 0 (flush re start st).blocks b stop order le (omega arith))

  add_line-lem :
      (bs : List Block) (buffer : List Text) (first : ℕ) (old kind : UnitKind) (inside : Bool)
      (line : Text) (start : ℕ)
      → Tidy bs buffer inside first start
      → IsTidy
          (add_line re kind line start (record {
            blocks = bs;
            buffer = buffer;
            buffer_start = first;
            buffer_kind = old;
            in_fence = inside;
          }))
          start
  unfolding add_line
  add_line-lem bs [] first old kind inside line start h = (h.0, omega arith)
  add_line-lem bs (l ∷ ls) first old kind inside line start h = h

  put_body-IsTidy :
      (kind : UnitKind) (line : Text) (start : ℕ) (st : Scan)
      → IsTidy st start
      → st.in_fence ≡ false
      → IsTidy (put_body re kind line start st) start
  unfolding put_body
  put_body-IsTidy kind line start st h out =
      let change =
        not (is_empty st.buffer) && not (ite (UnitKind-discrete kind st.buffer_kind) true false) in
      let ready = if change then flush re start st else st in
      let tidy : IsTidy ready start = elim (Bool-cases change) [
        | inl other ↦ rw other (flush-IsTidy st start h out)
        | inr same ↦ rw same h
      ] in
      add_line-lem ready.blocks ready.buffer ready.buffer_start ready.buffer_kind kind
        ready.in_fence line start tidy

  close_fence-IsTidy :
      (line : Text) (start : ℕ) (st : Scan)
      → IsTidy st start
      → st.in_fence ≡ true
      → IsTidy (close_fence re line start st) (start + length line)
  unfolding close_fence
  close_fence-IsTidy line start st h inside =
      let more : Scan = record st { buffer = st.buffer ++ line ∷ [] } in
      let (order, closed) =
        flush-Flushed more start (start + length line)
          (Tidy-more st.blocks st.buffer st.in_fence st.in_fence st.buffer_start start line inside
            h)
          (omega arith) in
      let done = flush re (start + length line) more in
      Tidy-closed done.blocks done.buffer false done.buffer_start (start + length line) closed refl
        order

  open_fence-IsTidy :
      (line : Text) (start : ℕ) (st : Scan)
      → IsTidy st start
      → IsTidy (open_fence re line start st) (start + length line)
  unfolding open_fence
  open_fence-IsTidy line start st h =
      ((flush-Flushed st start start h (omega arith)).0, omega arith)

  put_fence-IsTidy :
      (line : Text) (start : ℕ) (st : Scan)
      → IsTidy st start
      → IsTidy (put_fence re line start st) (start + length line)
  unfolding put_fence
  put_fence-IsTidy line start st h =
      if-ind (λ x. IsTidy x (start + length line)) st.in_fence (close_fence-IsTidy line start st h)
        (λ out. open_fence-IsTidy line start st h)

  -- Inside a fence a line is its end or belongs to it; outside it does not.
  Fits : Line → Bool → Type 0
  Fits fence inside = Unit
  Fits fenced inside = inside ≡ true
  Fits _ inside = inside ≡ false

  classify-Fits : (inside : Bool) (line nxt : Text) → Fits (classify re inside line nxt) inside
  unfolding classify Fits
  classify-Fits inside line nxt =
      let stripped = re.strip line in
      if-ind (λ k. Fits k inside) (re.is_fence line) (λ _. tt)
        (λ _.
          if-ind (λ k. Fits k inside) inside (λ yes_inside. yes_inside)
            (λ out.
              if-ind (λ k. Fits k inside) (is_empty stripped) (λ _. out)
                (λ _.
                  Option-ind (λ k. Fits k inside) (re.atx line) (λ found _. out)
                    (λ _.
                      if-ind (λ k. Fits k inside) (re.is_setext nxt && leb (length stripped) 120)
                        (λ _. out)
                        (λ _.
                          if-ind (λ k. Fits k inside)
                            (re.is_numbered stripped && looks_like_heading re line nxt) (λ _. out)
                            (λ _.
                              if-ind (λ k. Fits k inside) (is_caps_heading re line) (λ _. out)
                                (λ _. out)))))))

  put_line-IsTidy :
      (kind : Line) (line : Text) (start : ℕ) (st : Scan)
      → Fits kind st.in_fence
      → IsTidy st start
      → IsTidy (put_line re kind line start st) (start + length line)
  unfolding put_line Fits
  put_line-IsTidy fence line start st f h = put_fence-IsTidy line start st h
  put_line-IsTidy fenced line start st f h =
      Tidy-le st.blocks (st.buffer ++ line ∷ []) st.in_fence st.buffer_start start
        (start + length line)
        (Tidy-more st.blocks st.buffer st.in_fence st.in_fence st.buffer_start start line f h)
        (omega arith)
  put_line-IsTidy blank line start st f h =
      let flushed = flush re start st in
      Tidy-le flushed.blocks flushed.buffer flushed.in_fence flushed.buffer_start start
        (start + length line) (flush-IsTidy st start h f) (omega arith)
  put_line-IsTidy (title text level) line start st f h =
      put_title-IsTidy text level start (start + length line) st h f (omega arith)
  put_line-IsTidy (underlined text level) line start st f h =
      put_title-IsTidy text level start (start + length line) st h f (omega arith)
  put_line-IsTidy (body kind) line start st f h =
      let more = put_body re kind line start st in
      Tidy-le more.blocks more.buffer more.in_fence more.buffer_start start (start + length line)
        (put_body-IsTidy kind line start st h f) (omega arith)

  -- The length of lines with their line breaks.
  abbrev size : List Text → ℕ
  size ls = total (λ line. length line + 1) ls

  next_line-IsTidy :
      (skipped : Bool) (kind : Line) (line : Text) (start : ℕ) (st : Scan)
      → Fits kind st.in_fence
      → IsTidy st start
      → IsTidy (if skipped then st else put_line re kind line start st) (start + length line)
  next_line-IsTidy skipped kind line start st f h =
      if-ind (λ x. IsTidy x (start + length line)) skipped
        (λ _.
          Tidy-le st.blocks st.buffer st.in_fence st.buffer_start start (start + length line) h
            (omega arith))
        (λ _. put_line-IsTidy kind line start st f h)

  scan_lines-IsTidy :
      (skipped : Bool) (start : ℕ) (line : Text) (rest : List Text) (st : Scan)
      → IsTidy st start
      → IsTidy (scan_lines re skipped start (line ∷ rest) st) (start + size (line ∷ rest) - 1)
  unfolding scan_lines
  scan_lines-IsTidy skipped start line [] st h =
      let kind = classify re st.in_fence line [] in
      let at : start + size (line ∷ []) - 1 ≡ start + length line = omega arith in
      subst (IsTidy (if skipped then st else put_line re kind line start st)) (sym at)
        (next_line-IsTidy skipped kind line start st (classify-Fits st.in_fence line []) h)
  scan_lines-IsTidy skipped start line (next ∷ rest) st h =
      let kind = classify re st.in_fence line next in
      let st' = if skipped then st else put_line re kind line start st in
      let tidy =
        next_line-IsTidy skipped kind line start st (classify-Fits st.in_fence line next) h in
      let later =
        Tidy-le st'.blocks st'.buffer st'.in_fence st'.buffer_start (start + length line)
          (start + length line + 1) tidy (omega arith) in
      let at : start + length line + 1 + size (next ∷ rest) - 1
          ≡ start + size (line ∷ next ∷ rest) - 1 =
        omega arith in
      let skip = not skipped && takes_next re kind in
      subst (IsTidy (scan_lines re skip (start + length line + 1) (next ∷ rest) st')) at
        (scan_lines-IsTidy skip (start + length line + 1) next rest st' later)

  lines_from-size :
      (begun text : Text) → size (lines_from begun text) ≡ length begun + length text + 1
  lines_from-size begun [] = omega arith
  lines_from-size begun (c ∷ text) = elim (Bool-cases (c == 10)) [
    | inl break ↦ rw break (omega (arith, lines_from-size [] text))
    | inr more ↦
        rw more
          (omega (arith, lines_from-size (begun ++ c ∷ []) text, length-append begun (c ∷ [])))
  ]

  scan_all-IsTidy :
      (ls : List Text) (st : Scan)
      → 1 ≤ size ls
      → IsTidy st 0
      → IsTidy (scan_lines re false 0 ls st) (size ls - 1)
  scan_all-IsTidy [] st some_line h = absurd (omega arith)
  scan_all-IsTidy (line ∷ rest) st some_line h =
      let at : 0 + size (line ∷ rest) - 1 ≡ size (line ∷ rest) - 1 = omega arith in
      subst (IsTidy (scan_lines re false 0 (line ∷ rest) st)) at
        (scan_lines-IsTidy false 0 line rest st h)

-- The blocks that the analyzer finds stand in the text in their order and do not overlap: each
-- begins where the one before it has ended or later, ends where it begins or later, and the last
-- one ends within the text.
pub analyze-InOrder : (re : LinePatterns) (text : Text) → InOrder 0 (analyze re text) (length text)
unfolding analyze
analyze-InOrder re text =
    let ls = split_lines text in
    let whole = lines_from-size re [] text in
    let st : Scan = record {
      blocks = [];
      buffer = [];
      buffer_start = 0;
      buffer_kind = paragraph;
      in_fence = false;
    } in
    let tidy = scan_all-IsTidy re ls st (omega (arith, whole)) (omega arith, refl) in
    let at : size re ls - 1 ≡ length text = omega (arith, whole) in
    subst (InOrder 0 (analyze re text)) at
      (flush-Flushed re (scan_lines re false 0 ls st) (size re ls - 1) (size re ls - 1) tidy
        (omega arith)).0
