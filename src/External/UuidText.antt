-- ===== src/External/UuidText.antt =====
-- The `uuid` crate: a UUID as a text with dashes, and back. `Path<Uuid>` parses too.
use secure_net.Base.{String, Option, some, ◌≡◌}
use secure_net.Shared.Models.{Uuid}

pub record UuidText : Type 0 where
  pub show : Uuid → String
  pub parse : String → Option Uuid
  pub parse-show : (id : Uuid) → parse (show id) ≡ some id
