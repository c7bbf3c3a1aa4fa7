-- ===== src/Router/Tokens/Samples.antt =====
-- A concrete runtime for tests.
use fde_assessment.Base.{none, some}
use fde_assessment.Router.Tokens.{Runtime}

-- a runtime without tiktoken, whose serialised form is always the same text
abbrev pub plain : Runtime (Unit {0})
plain = record {
  encode = none;
  dumps = λ v. some "{\"serialised\": \"body\"}";
  str_of = λ v. "value";
  repr_int = λ n. "0";
  repr_float = λ x. "0.0";
}
