-- ===== src/Scenarios/Structuring.antt =====
-- A short document with a title, a fence and two paragraphs, its structure and its units.
use leanlm.Common.{
  ℕ, zero, suc, ◌≡◌, refl, true, false, Option, none, some, List, [], ◌∷◌, map, String, length,
  is_empty, if◌then◌else◌, All,
}
use leanlm.Shared.Text.{Text, codes, starts_with, sentences, join_words}
use leanlm.Shared.Text.Counter.{count}
use leanlm.Contracts.Dto.{ContextPackage}
use leanlm.Understanding.Structure.{LinePatterns, analyze, split_lines}
use leanlm.Understanding.Structure.Spans.{InOrder, analyze-InOrder}
use leanlm.Understanding.Segmenter.{Segmenter, segment, split_oversized}
use leanlm.Understanding.Segmenter.Units.{AreNumbered, segment-AreNumbered}
use leanlm.Understanding.Segmenter.Splitting.{joined, Fits, split_oversized-Splits}
use leanlm.Scenarios.Documents.{small_library, split_on}

abbrev title_line : Text → Option (ℕ × Text)
title_line line = if starts_with line (codes "# ") then some (1, line) else none

abbrev pub patterns : LinePatterns
patterns = record {
  strip = λ t. t;
  split_whitespace = split_on [];
  is_alpha = λ c. true;
  is_upper = λ c. false;
  is_fence = λ t. starts_with t (codes "~~~");
  atx = title_line;
  is_setext = λ t. starts_with t (codes "===");
  is_numbered = λ t. false;
  is_table = λ t. starts_with t (codes "|");
  is_bullet = λ t. starts_with t (codes "- ");
}

abbrev pub contract_text : Text
contract_text = codes "# Contrat\nRemboursement sous 30 jours.\n\n~~~\nx = 1\n~~~\n- prix\n- date"

abbrev pub digit : ℕ → String
digit zero = "0"
digit (suc zero) = "1"
digit n = "2"

abbrev pub segmenter : Segmenter
segmenter = record {
  policy = record {
    target_tokens = 4;
    max_tokens = 20;
    min_tokens = 2;
    merge_below_tokens = 3;
    max_units_per_document = 20;
    keep_headings_as_units = true;
  };
  count = count small_library;
  lib = record small_library { split_sentences = split_lines };
  format = digit;
  document_id = "contract-0001-abcdef";
  document_name = "contract.md";
}

blocks_found : length (analyze patterns contract_text) ≡ 4
unfolding analyze
blocks_found = refl

analyze-InOrder_example : InOrder 0 (analyze patterns contract_text) (length contract_text)
analyze-InOrder_example = analyze-InOrder patterns contract_text

segment-AreNumbered_example :
    AreNumbered segmenter 0 (segment segmenter (analyze patterns contract_text))
segment-AreNumbered_example = segment-AreNumbered segmenter (analyze patterns contract_text)

split_oversized-Splits_example :
    (pieces : List (List Text)) × (split_oversized segmenter contract_text
      ≡ (if is_empty pieces then contract_text ∷ [] else map join_words pieces))
    × (joined pieces ≡ sentences segmenter.lib contract_text)
    × All (Fits segmenter) pieces
split_oversized-Splits_example = split_oversized-Splits segmenter contract_text

abbrev contract_loaded : ContextPackage
contract_loaded = record {
  units = segment segmenter (analyze patterns contract_text);
  document_ids = "contract-0001-abcdef" ∷ [];
  total_units = 4;
  total_tokens = 40;
  corpus_checksum = "c";
}
