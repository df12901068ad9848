-- ===== src/Vault/Concurrent/Lines.antt =====
-- What it means for the issuance log of vault-service/src/log.rs to have a line for a request.
use text.Mathlib.TextLemmas.{append_assoc}
use secure_net.Base.{◌≡◌, refl, ap, ◌∙◌, String, ◌<>◌, Bool, Option}
use secure_net.Base.Result.{ok}
use secure_net.Shared.Models.{IssuanceLogEntry, UnsealRequest}
use secure_net.Vault.State.{Deps}

-- A line of the file, somewhere.
pub record HasLine (line file : String) : Type 0 where
  pub front : String
  pub rest : String
  pub place : file ≡ front <> (line <> ("\n" <> rest))

regroup :
    (front line rest more : String)
    → (front <> (line <> ("\n" <> rest))) <> more ≡ front <> (line <> ("\n" <> (rest <> more)))
regroup front line rest more =
    append_assoc front (line <> ("\n" <> rest)) more
    ∙ ap (λ f. front <> f)
        (append_assoc line ("\n" <> rest) more ∙ ap (λ f. line <> f) (append_assoc "\n" rest more))

HasLine-grown : (line file more : String) → HasLine line file → HasLine line (file <> more)
HasLine-grown line file more h = record {
  front = h.front;
  rest = h.rest <> more;
  place = ap (λ f. f <> more) h.place ∙ regroup h.front line h.rest more;
}

pub HasLine_last : (line file : String) → HasLine line (file <> (line <> "\n"))
HasLine_last line file = record { front = file; rest = ""; place = refl }

module _ (d : Deps) where
  -- The file has a line that prints an entry on this request, with the given fields.
  pub record HasEntry (req : UnsealRequest) (granted : Bool) (serial : String)
      (reason : Option String) (file : String) : Type 0 where
    pub entry : IssuanceLogEntry
    pub line : String
    pub printed : d.entry_to_string entry ≡ ok line
    pub found : HasLine line file
    pub service_name : entry.service_name ≡ req.service_name
    pub machine_id : entry.machine_id ≡ req.machine_id
    pub is_granted : entry.granted ≡ granted
    pub cert_serial : entry.cert_serial ≡ serial
    pub why : entry.reason ≡ reason

  pub HasEntry-grown :
      {req : UnsealRequest} {granted : Bool} {serial : String} {reason : Option String}
      (file more : String)
      → HasEntry req granted serial reason file
      → HasEntry req granted serial reason (file <> more)
  HasEntry-grown file more h = record {
    entry = h.entry;
    line = h.line;
    printed = h.printed;
    found = HasLine-grown h.line file more h.found;
    service_name = h.service_name;
    machine_id = h.machine_id;
    is_granted = h.is_granted;
    cert_serial = h.cert_serial;
    why = h.why;
  }
