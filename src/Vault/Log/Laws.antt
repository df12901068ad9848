-- ===== src/Vault/Log/Laws.antt =====
-- The log only grows, and a working file system records the whole line.
use text.Mathlib.TextLemmas.{append-nil}
use secure_net.Base.{String, inl, inr, Option-cases, ◌<>◌, ◌≡◌, some, arith}
use secure_net.Base.Result.{ok, Result-cases}
use secure_net.Shared.Models.{IssuanceLogEntry, DateTime}
use secure_net.Vault.Log.{
  Fs, IssuanceLog, EntryToString, LogEnv, record_grant, record_rejection, append, ensure_dir,
  written,
}

-- Every operation of the append succeeds.
pub record IsWorking (log : IssuanceLog) (fs : Fs) : Type 0 where
  pub dir : (p : String) → fs.parent log.path ≡ some p → fs.create_dir_all p ≡ ok tt
  pub open_ok : fs.open_append log.path ≡ ok tt
  pub write_ok : (line : String) → fs.write_all line ≡ ok tt

module _ (to_string : EntryToString) where
  -- Whatever fails, what was in the file stays at its front.
  pub append_grows :
      (log : IssuanceLog) (fs : Fs) (entry : IssuanceLogEntry) (file : String)
      → (rest : String) × (append to_string log fs entry file ≡ file <> rest)
  unfolding append
  append_grows log fs entry file = elim (Result-cases (to_string entry)) [
    | inr (e, bad) ↦ ("", ground (arith, append-nil file))
    | inl (s, good) ↦ elim (Result-cases (ensure_dir to_string fs (fs.parent log.path))) [
      | inr (e, bad) ↦ ("", ground (arith, append-nil file))
      | inl (u, made) ↦ elim (Result-cases (fs.open_append log.path)) [
        | inr (e, bad) ↦ ("", ground (arith, append-nil file))
        | inl (u', opened) ↦
            (written to_string (fs.write_all (s <> "\n")) (s <> "\n"), ground arith)
      ]
    ]
  ]

  pub append_line :
      (log : IssuanceLog) (fs : Fs) (entry : IssuanceLogEntry) (file line : String)
      → IsWorking log fs
      → to_string entry ≡ ok line
      → append to_string log fs entry file ≡ file <> (line <> "\n")
  unfolding append
  append_line log fs entry file line w h = elim (Option-cases (fs.parent log.path)) [
    | inl root ↦ ground (arith, w.open_ok, w.write_ok (line <> "\n"))
    | inr (p, below) ↦ ground (arith, w.open_ok, w.write_ok (line <> "\n"), w.dir p below)
  ]

  pub record_grant_grows :
      (log : IssuanceLog) (env : LogEnv) (service machine serial : String) (expires_at : DateTime)
      (file : String)
      → (rest : String) × (record_grant to_string log env service machine serial expires_at file
          ≡ file <> rest)
  unfolding record_grant
  record_grant_grows log env service machine serial expires_at file = append_grows log env.fs _ file

  pub record_rejection_grows :
      (log : IssuanceLog) (env : LogEnv) (service machine reason : String) (file : String)
      → (rest : String) × (record_rejection to_string log env service machine reason file
          ≡ file <> rest)
  unfolding record_rejection
  record_rejection_grows log env service machine reason file = append_grows log env.fs _ file
