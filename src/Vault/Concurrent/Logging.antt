-- ===== src/Vault/Concurrent/Logging.antt =====
-- However the handlers interleave, a working disk has a line for every certificate that was granted.
use text.Mathlib.TextLemmas.{append-nil}
use secure_net.Base.{
  ℕ, arith, ◌++◌, ◌≡◌, refl, sym, ◌∙◌, subst, List, [], ◌∷◌, String, ◌<>◌, true, false, none, some,
}
use secure_net.Base.Result.{Result, ok, err}
use secure_net.Shared.Errors.{vault_rejected}
use secure_net.Shared.Models.{CertBundle, IssuanceLogEntry, UnsealRequest}
use secure_net.Vault.Log.{IssuanceLog, append, record_grant, record_rejection, Fs}
use secure_net.Vault.Log.Laws.{IsWorking, append_line, record_grant_grows, record_rejection_grows}
use secure_net.Vault.Verifier.{Reason}
use secure_net.Vault.State.{Deps, Env, Vault}
use secure_net.Vault.Routes.{nonce, revoke}
use secure_net.Vault.Concurrent.Lines.{HasLine, HasLine_last, HasEntry, HasEntry-grown}
use secure_net.Vault.Concurrent.{
  World, Step, arrive, go_on, offer, withdraw, Reach, here, next, Endpoint, unseal_endpoint,
  renew_endpoint, Phase, received, verified, issued, rejected, answered, Task, after_verify,
  after_issue, advance,
}

module _ (d : Deps) where
  -- What the file must say once a task has been answered: the grant, or the rejection by `unseal`.
  abbrev pub IsRecorded : Endpoint → UnsealRequest → Phase d → String → Type 0
  IsRecorded e req (answered (ok response)) file =
      HasEntry d req true response.bundle.serial none file
  IsRecorded unseal_endpoint req (answered (err (vault_rejected reason))) file =
      HasEntry d req false "" (some reason) file
  IsRecorded e req p file = Unit

  abbrev pub AllRecorded : List (Task d) → String → Type 0
  AllRecorded [] file = Unit
  AllRecorded (t ∷ ts) file = IsRecorded t.endpoint t.req t.phase file × AllRecorded ts file

  IsRecorded-grown :
      (e : Endpoint) (req : UnsealRequest) (p : Phase d) (file more : String)
      → IsRecorded e req p file
      → IsRecorded e req p (file <> more)
  IsRecorded-grown e req (answered (ok response)) file more h = HasEntry-grown d file more h
  IsRecorded-grown unseal_endpoint req (answered (err (vault_rejected reason))) file more h =
      HasEntry-grown d file more h
  IsRecorded-grown e req p file more h = tt

  -- Every entry has a print.
  abbrev pub IsPrintable : Type 0
  IsPrintable = (entry : IssuanceLogEntry) → (line : String) × (d.entry_to_string entry ≡ ok line)

  abbrev Grows : String → String → Type 0
  Grows file file' = (more : String) × (file' ≡ file <> more)

  unchanged : (file : String) → Grows file file
  unchanged file = ("", sym (append-nil file))

  advance-Grows :
      (env : Env) (req : UnsealRequest) (e : Endpoint) (p : Phase d) (s : Vault d)
      → Grows s.file (advance d env req e p s).1.file
  unfolding advance
  advance-Grows env req e received s = unchanged s.file
  advance-Grows env req e verified s = unchanged s.file
  advance-Grows env req e (issued bundle) s =
      record_grant_grows d.entry_to_string s.app.log env.log_env req.service_name req.machine_id
        bundle.serial bundle.expires_at s.file
  advance-Grows env req e (rejected reason) s =
      record_rejection_grows d.entry_to_string s.app.log env.log_env req.service_name req.machine_id
        reason s.file
  advance-Grows env req e (answered r) s = unchanged s.file

  after_verify-IsRecorded :
      (e : Endpoint) (req : UnsealRequest) (v : Result (Unit {0}) Reason) (file : String)
      → IsRecorded e req (after_verify d e v) file
  unfolding after_verify
  after_verify-IsRecorded e req (ok u) file = tt
  after_verify-IsRecorded unseal_endpoint req (err reason) file = tt
  after_verify-IsRecorded renew_endpoint req (err reason) file = tt

  after_issue-IsRecorded :
      (e : Endpoint) (req : UnsealRequest) (v : Result CertBundle Reason) (file : String)
      → IsRecorded e req (after_issue d v) file
  unfolding after_issue
  after_issue-IsRecorded e req (ok bundle) file = tt
  after_issue-IsRecorded unseal_endpoint req (err reason) file = tt
  after_issue-IsRecorded renew_endpoint req (err reason) file = tt

  -- On a working file system the append of an entry is its line.
  appended :
      (log : IssuanceLog) (fs : Fs) (entry : IssuanceLogEntry) (file : String)
      → IsPrintable
      → IsWorking log fs
      → (line : String) × (d.entry_to_string entry ≡ ok line)
        × HasLine line (append d.entry_to_string log fs entry file)
  appended log fs entry file prints works =
      let (line, printed) = prints entry in
      (
        line,
        printed,
        subst (HasLine line)
            (sym (append_line d.entry_to_string log fs entry file line works printed))
            (HasLine_last line file),
      )

  advance-IsRecorded :
      (env : Env) (req : UnsealRequest) (e : Endpoint) (p : Phase d) (s : Vault d)
      → IsPrintable
      → IsWorking s.app.log env.log_env.fs
      → IsRecorded e req p s.file
      → IsRecorded e req (advance d env req e p s).0 (advance d env req e p s).1.file
  unfolding advance record_grant record_rejection
  advance-IsRecorded env req e received s prints works h = after_verify-IsRecorded e req _ s.file
  advance-IsRecorded env req e verified s prints works h = after_issue-IsRecorded e req _ s.file
  advance-IsRecorded env req e (issued bundle) s prints works h =
      let (line, printed, found) = appended s.app.log env.log_env.fs _ s.file prints works in
      record {
        entry = _;
        line = line;
        printed = printed;
        found = found;
        service_name = refl;
        machine_id = refl;
        is_granted = refl;
        cert_serial = refl;
        why = refl;
      }
  advance-IsRecorded env req unseal_endpoint (rejected reason) s prints works h =
      let (line, printed, found) = appended s.app.log env.log_env.fs _ s.file prints works in
      record {
        entry = _;
        line = line;
        printed = printed;
        found = found;
        service_name = refl;
        machine_id = refl;
        is_granted = refl;
        cert_serial = refl;
        why = refl;
      }
  advance-IsRecorded env req renew_endpoint (rejected reason) s prints works h = tt
  advance-IsRecorded env req e (answered r) s prints works h = h

  AllRecorded-grown :
      (ts : List (Task d)) (file more : String)
      → AllRecorded ts file
      → AllRecorded ts (file <> more)
  AllRecorded-grown [] file more h = tt
  AllRecorded-grown (t ∷ ts) file more (h, hs) =
      (IsRecorded-grown t.endpoint t.req t.phase file more h, AllRecorded-grown ts file more hs)

  -- One task has gone on and the file has grown.
  AllRecorded-moved :
      (before after : List (Task d)) (t : Task d) (p : Phase d) (file more : String)
      → AllRecorded (before ++ (t ∷ after)) file
      → IsRecorded t.endpoint t.req p (file <> more)
      → AllRecorded (before ++ (record t { phase = p } ∷ after)) (file <> more)
  AllRecorded-moved [] after t p file more (h, hs) new = (new, AllRecorded-grown after file more hs)
  AllRecorded-moved (b ∷ before) after t p file more (h, hs) new = (
    IsRecorded-grown b.endpoint b.req b.phase file more h,
    AllRecorded-moved before after t p file more hs new,
  )

  AllRecorded-at :
      (before after : List (Task d)) (t : Task d) (file : String)
      → AllRecorded (before ++ (t ∷ after)) file
      → IsRecorded t.endpoint t.req t.phase file
  AllRecorded-at [] after t file (h, hs) = h
  AllRecorded-at (b ∷ before) after t file (h, hs) = AllRecorded-at before after t file hs

  advance_log :
      (env : Env) (req : UnsealRequest) (e : Endpoint) (p : Phase d) (s : Vault d)
      → (advance d env req e p s).1.app.log ≡ s.app.log
  unfolding advance
  advance_log env req e received s = refl
  advance_log env req e verified s = refl
  advance_log env req e (issued bundle) s = refl
  advance_log env req e (rejected reason) s = refl
  advance_log env req e (answered r) s = refl

  record IsLogged (log : IssuanceLog) (w : World d) : Type 0 where
    same_log : w.vault.app.log ≡ log
    recorded : AllRecorded w.tasks w.vault.file

  -- The surroundings in which an append to `log` works.
  abbrev pub OnWorkingDisk : IssuanceLog → Env → Type 0
  OnWorkingDisk log env = IsWorking log env.log_env.fs

  Step-IsLogged :
      (log : IssuanceLog) {v w : World d}
      → IsPrintable
      → Step d (OnWorkingDisk log) v w
      → IsLogged log v
      → IsLogged log w
  unfolding nonce revoke
  Step-IsLogged log prints (arrive v unseal_endpoint req) h = record {
    same_log = h.same_log;
    recorded = (tt, h.recorded);
  }
  Step-IsLogged log prints (arrive v renew_endpoint req) h = record {
    same_log = h.same_log;
    recorded = (tt, h.recorded);
  }
  Step-IsLogged log prints (go_on v env before t after at works) h =
      let here : AllRecorded (before ++ (t ∷ after)) v.vault.file =
        subst (λ ts. AllRecorded ts v.vault.file) at h.recorded in
      let (more, grown) = advance-Grows env t.req t.endpoint t.phase v.vault in
      let new =
        advance-IsRecorded env t.req t.endpoint t.phase v.vault prints
          (subst (λ l. IsWorking l env.log_env.fs) (sym h.same_log) works)
          (AllRecorded-at before after t v.vault.file here) in
      record {
        same_log = advance_log env t.req t.endpoint t.phase v.vault ∙ h.same_log;
        recorded = subst (AllRecorded _) (sym grown) (
            AllRecorded-moved before after t _ v.vault.file more here
              (subst (IsRecorded t.endpoint t.req _) grown new));
      }
  Step-IsLogged log prints (offer v env) h = record { same_log = h.same_log; recorded = h.recorded }
  Step-IsLogged log prints (withdraw v body) h =
      let kept : (revoke d body v.vault).1.app.log ≡ v.vault.app.log = ground arith in
      let kept_file : (revoke d body v.vault).1.file ≡ v.vault.file = ground arith in
      record {
        same_log = kept ∙ h.same_log;
        recorded = subst (AllRecorded v.tasks) (sym kept_file) h.recorded;
      }

  Reach-IsLogged :
      (log : IssuanceLog) {v : World d} {n : ℕ} {w : World d}
      → IsPrintable
      → Reach d (OnWorkingDisk log) v n w
      → IsLogged log v
      → IsLogged log w
  Reach-IsLogged log prints here h = h
  Reach-IsLogged log prints (next r st) h =
      Step-IsLogged log prints st (Reach-IsLogged log prints r h)

  -- However the accesses of the handlers interleave, if no request was under way at the start, every
  -- entry prints and the disk works at each stop of a task, then the log file has a line for every
  -- certificate that was answered with, and for every rejection by `unseal`.
  pub Reach-AllRecorded :
      {n : ℕ} {s : Vault d} {w : World d}
      → IsPrintable
      → Reach d (OnWorkingDisk s.app.log) (record { vault = s; tasks = []; offered = [] }) n w
      → AllRecorded w.tasks w.vault.file
  Reach-AllRecorded {n} {s} prints r =
      (Reach-IsLogged s.app.log prints r (record { same_log = refl; recorded = tt })).recorded
