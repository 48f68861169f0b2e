-- ===== src/Scenarios/Storing.antt =====
-- A corpus store with one document, and the calls on it.
use leanlm.Common.{◌≡◌, refl, List, [], ◌∷◌}
use leanlm.Shared.Errors.{ok}
use leanlm.Shared.Text.{codes}
use leanlm.Contracts.Dto.{SemanticUnit, StructuredDocument, ContextPackage}
use leanlm.Runtime.Corpus.{
  CorpusLibrary, CorpusStore, new_store, context_package, build_package, corpus_checksum,
  stored_checksum, to_unit, to_row,
}
use leanlm.Runtime.Corpus.Caches.{
  Operation, upserting, removing, reading_package, reading_checksum, apply, apply_all,
  context_package-fresh,
}
use leanlm.Runtime.Corpus.Rows.{to_unit-to_row}
use leanlm.Scenarios.Documents.{passage}

abbrev pub library : CorpusLibrary
library = record {
  order_units = λ rows. rows;
  order_documents = λ rows. rows;
  sorted = λ xs. xs;
  sha256_text = λ t. t;
  seal = λ u. u.unit_id;
}

abbrev filed : SemanticUnit
filed = record (passage (codes "remboursement sous 30 jours")) {
  section_path = codes "Contrat" ∷ codes "Prix" ∷ [];
}

abbrev contract_document : StructuredDocument
contract_document = record {
  document_id = "d";
  filename = "a.txt";
  title = codes "Contrat";
  units = filed ∷ [];
  section_titles = codes "Contrat" ∷ codes "Prix" ∷ [];
  token_estimate = 6;
  language_hint = "fr";
}

-- The document is read, replaced, and read again.
abbrev calls : List Operation
calls =
    upserting contract_document "/tmp/a.txt" "f" "t"
    ∷ reading_package ("d" ∷ [])
    ∷ reading_checksum
    ∷ removing "other"
    ∷ upserting contract_document "/tmp/a.txt" "g" "u"
    ∷ reading_package []
    ∷ []

abbrev pub filled : CorpusStore
filled = apply_all library calls new_store

-- The package of all units.
pub filled-package : (p : ContextPackage) × ((context_package library [] filled).0 ≡ ok p)
unfolding context_package apply
filled-package = (_, refl)

context_package-fresh_example :
    ((context_package library ("d" ∷ []) (apply_all library calls new_store)).0
      ≡ build_package library ("d" ∷ []) (apply_all library calls new_store).tables)
    × ((corpus_checksum library (apply_all library calls new_store)).0
        ≡ stored_checksum library (apply_all library calls new_store).tables)
context_package-fresh_example = context_package-fresh library calls ("d" ∷ []) (λ x xs. refl)

to_unit-to_row_example : to_unit (to_row library filed) ≡ ok filed
to_unit-to_row_example =
    to_unit-to_row library filed
      (record { occupied = refl; unsplit = refl }, (record { occupied = refl; unsplit = refl }, tt))
