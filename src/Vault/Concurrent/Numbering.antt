-- ===== src/Vault/Concurrent/Numbering.antt =====
-- However the handlers interleave, no two certificates have the same serial number.
use secure_net.Base.{
  ℕ, suc, ◌+◌, ◌^◌, ◌≤◌, ◌<◌, ◌≡◌, ◌≢◌, ◌⊎◌, refl, sym, ap, ◌∙◌, subst, List, [], ◌∷◌, ◌++◌, arith,
  inl, inr, String, Option, none, some, All, format_016x, format_016x_inj,
}
use secure_net.Base.Result.{ok, Result-cases}
use secure_net.Shared.Models.{UnsealRequest}
use secure_net.Vault.Issuer.{next_u64, issue_with}
use secure_net.Vault.Verifier.{verify}
use secure_net.Vault.Issuer.Laws.{issue_with-serial}
use secure_net.Vault.State.{Deps, Env, Vault}
use secure_net.Vault.Routes.{nonce, revoke}
use secure_net.Vault.Routes.Trace.Serials.{IsDistinct}
use secure_net.Vault.Concurrent.{
  Endpoint, unseal_endpoint, renew_endpoint, Phase, received, verified, issued, rejected, answered,
  Task, advance, World, Step, arrive, go_on, offer, withdraw, Reach, here, next,
}

abbrev pub and_numbered : Option String → List String → List String
and_numbered none ts = ts
and_numbered (some t) ts = t ∷ ts

and_numbered-append :
    (o : Option String) (xs ys : List String) → and_numbered o (xs ++ ys) ≡ and_numbered o xs ++ ys
and_numbered-append none xs ys = refl
and_numbered-append (some t) xs ys = refl

-- A serial number that was given out before the counter stood at `n`.
abbrev IsBefore : ℕ → String → Type 0
IsBefore n t = (k : ℕ) × (k < n) × (t ≡ format_016x k)

widen : (n n' : ℕ) (ts : List String) → n ≤ n' → All (IsBefore n) ts → All (IsBefore n') ts
widen n n' [] le _ = tt
widen n n' (t ∷ ts) le ((k, lt, e), h) = ((k, omega arith, e), widen n n' ts le h)

-- What was given out before differs from what is given out now.
unused :
    (n : ℕ) (ts : List String) → n < 2 ^ 64 → All (IsBefore n) ts → All (λ u. u ≢ format_016x n) ts
unused n [] small _ = tt
unused n (t ∷ ts) small ((k, lt, e), h) = (
  λ same. absurd (omega (arith, format_016x_inj k n (omega arith) small (sym e ∙ same))),
  unused n ts small h,
)

insert-All :
    (P : String → Type 0) (t : String) (xs ys : List String)
    → P t
    → All P (xs ++ ys)
    → All P (xs ++ (t ∷ ys))
insert-All P t [] ys p h = (p, h)
insert-All P t (x ∷ xs) ys p (q, h) = (q, insert-All P t xs ys p h)

other_way : (t : String) (ys : List String) → All (λ u. u ≢ t) ys → All (λ u. t ≢ u) ys
other_way t [] _ = tt
other_way t (y ∷ ys) (ne, h) = ((λ e. ne (sym e)), other_way t ys h)

insert-IsDistinct :
    (t : String) (xs ys : List String)
    → IsDistinct (xs ++ ys)
    → All (λ u. u ≢ t) (xs ++ ys)
    → IsDistinct (xs ++ (t ∷ ys))
insert-IsDistinct t [] ys h f = (other_way t ys f, h)
insert-IsDistinct t (x ∷ xs) ys (ne, h) (g, f) =
    (insert-All (λ u. x ≢ u) t xs ys g ne, insert-IsDistinct t xs ys h f)

module _ (d : Deps) where
  -- The serial number of the certificate that was made for a task.
  abbrev pub numbered : Phase d → Option String
  numbered (issued bundle) = some bundle.serial
  numbered (answered (ok response)) = some response.bundle.serial
  numbered _ = none

  abbrev pub numbers : List (Task d) → List String
  numbers [] = []
  numbers (t ∷ ts) = and_numbered (numbered t.phase) (numbers ts)

  numbers-append : (xs ys : List (Task d)) → numbers (xs ++ ys) ≡ numbers xs ++ numbers ys
  numbers-append [] ys = refl
  numbers-append (x ∷ xs) ys =
      ap (and_numbered (numbered x.phase)) (numbers-append xs ys)
      ∙ and_numbered-append (numbered x.phase) (numbers xs) (numbers ys)

  -- A stop leaves the serial number of the task alone, or gives it the counter's value and moves the
  -- counter on.
  abbrev NumberStep : Option String → ℕ → Option String → ℕ → Type 0
  NumberStep before n after n' =
      ((after ≡ before) × ((n' ≡ n) ⊎ (n' ≡ next_u64 n)))
      ⊎ ((before ≡ none) × (after ≡ some (format_016x n)) × (n' ≡ next_u64 n))

  advance_number :
      (env : Env) (req : UnsealRequest) (e : Endpoint) (p : Phase d) (s : Vault d)
      → NumberStep
          (numbered p)
          s.serial_counter
          (numbered (advance d env req e p s).0)
          (advance d env req e p s).1.serial_counter
  unfolding advance
  advance_number env req e received s =
      elim (Result-cases
        (verify d.hex d.sha256 req s.app.allowlist s.app.nonce_store env.instant).0) [
          | inl (u, accepted) ↦ inl (ground arith, inl refl)
          | inr (reason, refused) ↦ elim e [
            | unseal_endpoint ↦ inl (ground arith, inl refl)
            | renew_endpoint ↦ inl (ground arith, inl refl)
          ]
        ]
  advance_number env req e verified s =
      elim (Result-cases
        (issue_with d.rcgen s.app.issuer s.serial_counter env.issue_env req.service_name)) [
          | inl (bundle, made) ↦
              let known =
                issue_with-serial d.rcgen s.app.issuer s.serial_counter env.issue_env
                  req.service_name bundle made in
              inr (refl, ground arith, refl)
          | inr (reason, failed) ↦ inl (ground arith, inr refl)
        ]
  advance_number env req e (issued bundle) s = inl (refl, inl refl)
  advance_number env req e (rejected reason) s = inl (refl, inl refl)
  advance_number env req e (answered r) s = inl (refl, inl refl)

  -- `n` for the number of steps, `k` for the counter at the start.
  record IsNumbered (k n : ℕ) (w : World d) : Type 0 where
    bounded : w.vault.serial_counter ≤ k + n
    before : All (IsBefore w.vault.serial_counter) (numbers w.tasks)
    distinct : IsDistinct (numbers w.tasks)

  numbers_middle :
      (before after : List (Task d)) (t : Task d) (o : Option String)
      → numbered t.phase ≡ o
      → numbers (before ++ (t ∷ after)) ≡ numbers before ++ and_numbered o (numbers after)
  numbers_middle before after t o e =
      numbers-append before (t ∷ after)
      ∙ ap (λ p. numbers before ++ and_numbered p (numbers after)) e

  -- The two properties of a list of serial numbers.
  abbrev IsGood : ℕ → List String → Type 0
  IsGood c ts = All (IsBefore c) ts × IsDistinct ts

  -- One task goes on, and the counter moves by one at most.
  number_task :
      (c c' : ℕ) (before after : List (Task d)) (t t' : Task d)
      → c + 1 < 2 ^ 64
      → NumberStep (numbered t.phase) c (numbered t'.phase) c'
      → IsGood c (numbers (before ++ (t ∷ after)))
      → (c' ≤ c + 1) × IsGood c' (numbers (before ++ (t' ∷ after)))
  number_task c c' before after t t' room (inl (same, which)) good =
      let bound : (c' ≤ c + 1) × (c ≤ c') = elim which [
        | inl e ↦ omega arith
        | inr e ↦ omega arith
      ] in
      let alike =
        numbers_middle before after t (numbered t.phase) refl
        ∙ sym (numbers_middle before after t' (numbered t.phase) same) in
      let (old, distinct) = subst (IsGood c) alike good in
      (bound.0, (widen c c' _ bound.1 old, distinct))
  number_task c c' before after t t' room (inr (blank, given, moved)) good =
      let bound : (c' ≡ c + 1) = omega arith in
      let (old, distinct) = subst (IsGood c) (numbers_middle before after t none blank) good in
      let fresh = unused c (numbers before ++ numbers after) (omega arith) old in
      let wider = widen c c' (numbers before ++ numbers after) (omega arith) old in
      (
        omega arith,
        subst (IsGood c') (sym (numbers_middle before after t' (some (format_016x c)) given)) (
          insert-All (IsBefore c') (format_016x c) (numbers before) (numbers after)
              (c, omega arith, refl) wider,
          insert-IsDistinct (format_016x c) (numbers before) (numbers after) distinct fresh,
        ),
      )

  Step-IsNumbered :
      {P : Env → Type 0} (k n : ℕ) {v w : World d}
      → k + suc n < 2 ^ 64
      → Step d P v w
      → IsNumbered k n v
      → IsNumbered k (suc n) w
  unfolding nonce revoke
  Step-IsNumbered k n room (arrive v e req) h = record {
    bounded = omega (arith, h.bounded);
    before = h.before;
    distinct = h.distinct;
  }
  Step-IsNumbered k n room (go_on v env before t after at allowed) h =
      let (p, s) = advance d env t.req t.endpoint t.phase v.vault in
      let c = v.vault.serial_counter in
      let good : IsGood c (numbers (before ++ (t ∷ after))) =
        subst (λ ts. IsGood c (numbers ts)) at (h.before, h.distinct) in
      let (bound, (old, distinct)) =
        number_task c s.serial_counter before after t (record t { phase = p })
          (omega (arith, h.bounded)) (advance_number env t.req t.endpoint t.phase v.vault) good in
      record { bounded = omega (arith, bound, h.bounded); before = old; distinct = distinct }
  Step-IsNumbered k n room (offer v env) h = record {
    bounded = omega (arith, h.bounded);
    before = h.before;
    distinct = h.distinct;
  }
  Step-IsNumbered k n room (withdraw v body) h =
      let same : (revoke d body v.vault).1.serial_counter ≡ v.vault.serial_counter = ground arith in
      record {
        bounded = omega (arith, same, h.bounded);
        before = subst (λ c. All (IsBefore c) (numbers v.tasks)) (sym same) h.before;
        distinct = h.distinct;
      }

  Reach-IsNumbered :
      {P : Env → Type 0} (k : ℕ) {v : World d} {n : ℕ} {w : World d}
      → k + n < 2 ^ 64
      → IsNumbered k 0 v
      → Reach d P v n w
      → IsNumbered k n w
  Reach-IsNumbered k room h here = h
  Reach-IsNumbered k room h (next r st) =
      Step-IsNumbered k _ room st (Reach-IsNumbered k (omega (arith, room)) h r)

  -- However the accesses of the handlers interleave, the certificates that were made have pairwise
  -- distinct serial numbers, if no request was under way at the start and the counter cannot reach
  -- 2^64 in that many steps.
  pub Reach-IsDistinct :
      {P : Env → Type 0} {n : ℕ} {s : Vault d} {w : World d}
      → s.serial_counter + n < 2 ^ 64
      → Reach d P (record { vault = s; tasks = []; offered = [] }) n w
      → IsDistinct (numbers w.tasks)
  Reach-IsDistinct {P} {n} {s} {w} room r =
      let start : IsNumbered s.serial_counter 0 (record { vault = s; tasks = []; offered = [] }) =
        record { bounded = omega arith; before = tt; distinct = tt } in
      (Reach-IsNumbered s.serial_counter room start r).distinct
