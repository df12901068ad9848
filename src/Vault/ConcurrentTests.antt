-- ===== src/Vault/ConcurrentTests.antt =====
-- Two handlers of a concrete vault at the same time, and the theorems on such runs.
use secure_net.Base.{ℕ, ◌+◌, ◌≤◌, ◌≡◌, refl, [], ◌∷◌, arith, text_eq, nat_eq, list_eq, format_016x}
use secure_net.Base.Result.{ok, err}
use secure_net.Base.HashMap.{get, insert, remove, retain}
use secure_net.Shared.Errors.{vault_rejected}
use secure_net.Samples.SampleHex.{encode, decode}
use secure_net.Vault.NonceStore.{register, consume}
use secure_net.Vault.Verifier.{contains, verify}
use secure_net.Vault.Issuer
use secure_net.Vault.Routes.{nonce, attest, issue}
use secure_net.Vault.Routes.Trace.Nonces.{has}
use secure_net.Vault.Routes.Trace.Serials.{IsDistinct}
use secure_net.Vault.Tests.{libraries, start, at, attestation, first_bundle, disk_works}
use secure_net.Vault.Concurrent.{
  unseal_endpoint, renew_endpoint, Task, received, answered, advance, World, moved, Reach, here,
  next, arrive, go_on, offer, after_verify, after_issue,
}
use secure_net.Vault.Concurrent.Spending.{count, certificates, certificates-le-offers}
use secure_net.Vault.Concurrent.Numbering.{numbers, Reach-IsDistinct}
use secure_net.Vault.Concurrent.Logging.{AllRecorded, OnWorkingDisk, Reach-AllRecorded}

program : Unit {0}
unfolding advance after_verify after_issue attest issue nonce get insert remove retain register
    consume verify contains Issuer.issue_with Issuer.issue format_016x encode decode
program = tt

-- A nonce is handed out, one request with it comes in and another one while the first is under way.
abbrev first : Task libraries
first = record { endpoint = unseal_endpoint; req = attestation; phase = received }

abbrev second : Task libraries
second = record { endpoint = renew_endpoint; req = attestation; phase = received }

abbrev w0 : World libraries
w0 = record { vault = start; tasks = []; offered = [] }

abbrev w1 : World libraries
w1 = record { vault = (nonce libraries (at 1) start).1; tasks = []; offered = (1 ∷ 2 ∷ []) ∷ [] }

abbrev w2 : World libraries
w2 = record w1 { tasks = second ∷ first ∷ [] }

abbrev turned : ℕ → Task libraries → World libraries → Task libraries
turned t task w = record task {
  phase = (advance libraries (at t) task.req task.endpoint task.phase w.vault).0;
}

abbrev w3 : World libraries
w3 = moved libraries (at 2) (second ∷ []) first [] w2

abbrev w4 : World libraries
w4 = moved libraries (at 3) [] second (turned 2 first w2 ∷ []) w3

abbrev w5 : World libraries
w5 = moved libraries (at 3) (turned 3 second w3 ∷ []) (turned 2 first w2) [] w4

abbrev w6 : World libraries
w6 = moved libraries (at 4) (turned 3 second w3 ∷ []) (turned 3 (turned 2 first w2) w4) [] w5

run :
    w6.tasks
    ≡ record second {
      phase = answered (err (vault_rejected "nonce is invalid, expired, or already used"));
    }
      ∷ record first {
        phase =
            answered (ok (record { bundle = record first_bundle { expires_at = 303000000000 } }));
      }
      ∷ []
unfolding program
run = refl

reach : Reach libraries (OnWorkingDisk libraries start.app.log) w0 7 w6
reach =
    next
      (next
        (next
          (next
            (next (next (next here (offer w0 (at 1))) (arrive w1 unseal_endpoint attestation))
              (arrive (record w1 { tasks = first ∷ [] }) renew_endpoint attestation))
            (go_on w2 (at 2) (second ∷ []) first [] refl disk_works))
          (go_on w3 (at 3) [] second (turned 2 first w2 ∷ []) refl disk_works))
        (go_on w4 (at 3) (turned 3 second w3 ∷ []) (turned 2 first w2) [] refl disk_works))
      (go_on w5 (at 4) (turned 3 second w3 ∷ []) (turned 3 (turned 2 first w2) w4) [] refl
        disk_works)

certificates-le-offers_example :
    certificates libraries (1 ∷ 2 ∷ []) w6.tasks
    ≤ has (1 ∷ 2 ∷ []) start.app.nonce_store + count (1 ∷ 2 ∷ []) w6.offered
certificates-le-offers_example = certificates-le-offers libraries (1 ∷ 2 ∷ []) tt reach

Reach-IsDistinct_example : IsDistinct (numbers libraries w6.tasks)
Reach-IsDistinct_example = Reach-IsDistinct libraries (omega arith) reach

Reach-AllRecorded_example : AllRecorded libraries w6.tasks w6.vault.file
Reach-AllRecorded_example = Reach-AllRecorded libraries (λ entry. (entry.cert_serial, refl)) reach
