-- ===== src/Shared/Text/Stopwords.antt =====
-- The stop lists (shared/text.py): the interrogatives, then the other words, as a set.
use leanlm.Common.{String, List, [], ◌∷◌}

abbrev pub stopwords : List String
stopwords =
    "quel" ∷ "quelle" ∷ "quels" ∷ "quelles" ∷ "combien" ∷ "comment" ∷ "pourquoi" ∷ "quand" ∷ "quoi"
    ∷ "lequel" ∷ "laquelle" ∷ "ou" ∷ "what" ∷ "which" ∷ "how" ∷ "why" ∷ "when" ∷ "who" ∷ "whom"
    ∷ "whose" ∷ "where" ∷ "a" ∷ "ai" ∷ "au" ∷ "aux" ∷ "avec" ∷ "ce" ∷ "ces" ∷ "dans" ∷ "de" ∷ "des"
    ∷ "du" ∷ "elle" ∷ "en" ∷ "et" ∷ "eux" ∷ "il" ∷ "ils" ∷ "je" ∷ "la" ∷ "le" ∷ "les" ∷ "leur"
    ∷ "lui" ∷ "ma" ∷ "mais" ∷ "me" ∷ "meme" ∷ "mes" ∷ "moi" ∷ "mon" ∷ "ne" ∷ "nos" ∷ "notre"
    ∷ "nous" ∷ "on" ∷ "par" ∷ "pas" ∷ "pour" ∷ "qu" ∷ "que" ∷ "qui" ∷ "sa" ∷ "se" ∷ "ses" ∷ "son"
    ∷ "sur" ∷ "ta" ∷ "te" ∷ "tes" ∷ "toi" ∷ "ton" ∷ "tu" ∷ "un" ∷ "une" ∷ "vos" ∷ "votre" ∷ "vous"
    ∷ "y" ∷ "d" ∷ "l" ∷ "n" ∷ "s" ∷ "c" ∷ "j" ∷ "m" ∷ "t" ∷ "est" ∷ "sont" ∷ "etre" ∷ "ete"
    ∷ "cette" ∷ "cet" ∷ "celui" ∷ "celle" ∷ "ceux" ∷ "plus" ∷ "moins" ∷ "tres" ∷ "bien" ∷ "alors"
    ∷ "donc" ∷ "car" ∷ "si" ∷ "comme" ∷ "sans" ∷ "sous" ∷ "entre" ∷ "chez" ∷ "the" ∷ "an" ∷ "and"
    ∷ "or" ∷ "but" ∷ "of" ∷ "to" ∷ "in" ∷ "at" ∷ "for" ∷ "with" ∷ "by" ∷ "from" ∷ "as" ∷ "is"
    ∷ "are" ∷ "was" ∷ "were" ∷ "be" ∷ "been" ∷ "being" ∷ "this" ∷ "that" ∷ "these" ∷ "those" ∷ "it"
    ∷ "its" ∷ "their" ∷ "his" ∷ "her" ∷ "our" ∷ "your" ∷ "my" ∷ "we" ∷ "you" ∷ "they" ∷ "he" ∷ "she"
    ∷ "i" ∷ "not" ∷ "no" ∷ "do" ∷ "does" ∷ "did" ∷ "done" ∷ "can" ∷ "could" ∷ "should" ∷ "would"
    ∷ "may" ∷ "might" ∷ "will" ∷ "shall" ∷ "have" ∷ "has" ∷ "had" ∷ "there" ∷ "here" ∷ "all" ∷ "any"
    ∷ "each" ∷ "few" ∷ "more" ∷ "most" ∷ "other" ∷ "some" ∷ "such" ∷ "than" ∷ "too" ∷ "very" ∷ "don"
    ∷ "now" ∷ []
