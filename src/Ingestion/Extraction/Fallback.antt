-- ===== src/Ingestion/Extraction/Fallback.antt =====
-- Which reader a text comes from (packages/ingestion/services.py, `_extract_pdf`, `extract_text`).
use leanlm.Common.{
  ◌≡◌, refl, ◌⊎◌, inl, inr, String, Option, none, some, Bool, true, false, List, [], ◌∷◌, ◌++◌,
  length, length-append, map, not, ◌&&◌, str_append, if-ind, arith,
}
use leanlm.Shared.Errors.{Result, ok, raise}
use leanlm.Shared.Text.{Text, join_with}
use leanlm.Ingestion.Extraction.{
  ExtractionResult, Outcome, import_error, failed, done, Readers, Attempted, found, still, or_empty,
  is_blank, try_pypdf, try_pdfminer, run_pdftotext, try_pdftotext, otherwise, conclude, extract_pdf,
}

-- A call that returns a text which is not blank.
abbrev pub reads {ℓ} : {A : Type ℓ} → (A → Bool) → Outcome A → Bool
reads usable import_error = false
reads usable (failed kind) = false
reads usable (done a) = usable a

-- The text that a call gives.
abbrev pub text_by {ℓ} : {A : Type ℓ} → (A → Text) → Outcome A → Option Text
text_by as_text import_error = none
text_by as_text (failed kind) = none
text_by as_text (done a) = some (as_text a)

Outcome-ind {ℓ κ μ} :
    {A : Type ℓ} {B : Type κ} (Q : B → Type μ) (o : Outcome A) {a : B} {f : String → B} {g : A → B}
    → (o ≡ import_error → Q a)
    → ((kind : String) → o ≡ failed kind → Q (f kind))
    → ((x : A) → o ≡ done x → Q (g x))
    → Q (elim o [ import_error ↦ a | failed kind ↦ f kind | done x ↦ g x ])
Outcome-ind Q import_error qa qf qg = qa refl
Outcome-ind Q (failed kind) qa qf qg = qf kind refl
Outcome-ind Q (done x) qa qf qg = qg x refl

module _ (r : Readers) (path : String) where
  -- The pages with an empty line between them.
  abbrev pub paged : List (Option Text) → Text
  paged pages = join_with (10 ∷ 10 ∷ []) (map or_empty pages)

  abbrev pub by_pypdf : Bool
  by_pypdf =
      reads (λ pages. not (is_blank r (join_with (10 ∷ 10 ∷ []) (map or_empty pages))))
        (r.pypdf path)

  abbrev pub by_pdfminer : Bool
  by_pdfminer = reads (λ t. not (is_blank r (or_empty t))) (r.pdfminer path)

  abbrev pub by_pdftotext : Bool
  by_pdftotext = r.has_pdftotext && reads (λ t. not (is_blank r t)) (r.pdftotext path)

  -- The text of the first reader that can read the file, with its name, and a warning for each one before it.
  abbrev pub IsFirst : Result ExtractionResult → Type 0
  IsFirst (ok x) =
      (is_blank r x.text ≡ false)
      × ((x.method ≡ "pypdf")
            × (length x.warnings ≡ 0)
            × (by_pypdf ≡ true)
            × (text_by paged (r.pypdf path) ≡ some x.text)
          ⊎ ((x.method ≡ "pdfminer.six")
                × (length x.warnings ≡ 1)
                × (by_pypdf ≡ false)
                × (by_pdfminer ≡ true)
                × (text_by or_empty (r.pdfminer path) ≡ some x.text)
              ⊎ ((x.method ≡ "pdftotext")
                  × (length x.warnings ≡ 2)
                  × (by_pypdf ≡ false)
                  × (by_pdfminer ≡ false)
                  × (by_pdftotext ≡ true)
                  × (text_by (λ t. t) (r.pdftotext path) ≡ some x.text))))
  IsFirst (raise e) = (by_pypdf ≡ false) × (by_pdfminer ≡ false) × (by_pdftotext ≡ false)

  -- After the first reader, and after the second.
  abbrev AfterFirst : Attempted → Type 0
  AfterFirst (found x) = IsFirst (ok x)
  AfterFirst (still ws) = (length ws ≡ 1) × (by_pypdf ≡ false)

  abbrev AfterSecond : Attempted → Type 0
  AfterSecond (found x) = IsFirst (ok x)
  AfterSecond (still ws) = (length ws ≡ 2) × (by_pypdf ≡ false) × (by_pdfminer ≡ false)

  try_pypdf-first : AfterFirst (try_pypdf r path)
  unfolding try_pypdf
  try_pypdf-first = ground arith

  one_more : (ws : List String) (w : String) → length ws ≡ 1 → length (ws ++ w ∷ []) ≡ 2
  one_more ws w e = omega (arith, length-append ws (w ∷ []))

  try_pdfminer-second :
      (ws : List String) → length ws ≡ 1 → by_pypdf ≡ false → AfterSecond (try_pdfminer r ws path)
  unfolding try_pdfminer
  try_pdfminer-second ws e p =
      Outcome-ind AfterSecond (r.pdfminer path)
        (λ q. (one_more ws "pdfminer.six unavailable" e, p, rw q refl))
        (λ kind q. (one_more ws (str_append "pdfminer failed: " kind) e, p, rw q refl))
        (λ t q.
          if-ind AfterSecond (is_blank r (or_empty t))
            (λ b. (one_more ws "pdfminer returned no text; trying pdftotext" e, p, rw (q, b) refl))
            (λ b. (b, inr (inl (refl, e, p, rw (q, b) refl, rw q refl)))))

  try_pdftotext-third :
      (ws : List String)
      → length ws ≡ 2
      → by_pypdf ≡ false
      → by_pdfminer ≡ false
      → IsFirst (conclude r path (try_pdftotext r ws path))
  unfolding try_pdftotext run_pdftotext
  try_pdftotext-third ws e p q =
      if-ind (λ a. IsFirst (conclude r path a)) r.has_pdftotext
        (λ has.
          Outcome-ind (λ a. IsFirst (conclude r path a)) (r.pdftotext path)
            (λ o. (p, q, rw (has, o) refl)) (λ kind o. (p, q, rw (has, o) refl))
            (λ t o.
              if-ind (λ a. IsFirst (conclude r path a)) (is_blank r t)
                (λ b. (p, q, rw (has, o, b) refl))
                (λ b. (b, inr (inr (refl, e, p, q, rw (has, o, b) refl, rw o refl))))))
        (λ has. (p, q, rw has refl))

  otherwise-second :
      (a : Attempted) → AfterFirst a → AfterSecond (otherwise r a (λ ws. try_pdfminer r ws path))
  otherwise-second (found x) h = h
  otherwise-second (still ws) h = try_pdfminer-second ws h.0 h.1

  otherwise-third :
      (a : Attempted)
      → AfterSecond a
      → IsFirst (conclude r path (otherwise r a (λ ws. try_pdftotext r ws path)))
  otherwise-third (found x) h = h
  otherwise-third (still ws) h = try_pdftotext-third ws h.0 h.1 h.2

  -- `_extract_pdf` returns just the text of the first of its readers that finds a text which is
  -- not blank, `pypdf` by joining its pages with empty lines, with the name of that reader and one warning for each reader before it; it raises only
  -- when no reader finds one.
  pub extract_pdf-first : IsFirst (extract_pdf r path)
  unfolding extract_pdf
  extract_pdf-first =
      otherwise-third (otherwise r (try_pypdf r path) (λ ws. try_pdfminer r ws path))
        (otherwise-second (try_pypdf r path) try_pypdf-first)
