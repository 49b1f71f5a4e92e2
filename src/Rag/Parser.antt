-- ===== src/Rag/Parser.antt =====
-- src/athenai/rag/parser.py. The metadata of a document is handed on unread.
use athena_ai.Prelude.{String, Text, List, [], ◌∷◌}
use athena_ai.Prelude.Dict.{Dict}
use athena_ai.Prelude.Texts.{strip, split, join_words}
use athena_ai.Core.Errors.{Result, ok, err, value_error}
use athena_ai.Core.Json.{Json}

pub record ParsedDocument : Type 0 where
  pub document_id : String
  pub content : Text
  pub source : String
  pub metadata : Dict Json

normalised : String → String → Dict Json → List Text → ParsedDocument
unfolding join_words
normalised document_id source metadata words = record {
  document_id = document_id;
  content = join_words words;
  source = source;
  metadata = metadata;
}

-- `DocumentParser.parse`
unfoldable pub parse : Text → String → String → Dict Json → Result ParsedDocument
unfolding normalised split strip
parse content document_id source metadata = elim (strip content) [
  | [] ↦ err value_error
  | c ∷ cs ↦ ok (normalised document_id source metadata (split content))
]
