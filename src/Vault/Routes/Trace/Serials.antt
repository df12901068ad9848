-- ===== src/Vault/Routes/Trace/Serials.antt =====
-- No two certificates of one run have the same serial number.
use secure_net.Base.{
  ℕ, ◌+◌, ◌^◌, ◌≤◌, ◌<◌, ◌≡◌, ◌≢◌, inl, inr, refl, ap, ◌∙◌, String, Option, none, some, List, [],
  ◌∷◌, arith, All, length, format_016x, format_016x_inj,
}
use secure_net.Vault.State.{Deps, Env, Vault}
use secure_net.Vault.Routes.{Reply, Request, handle, serve}
use secure_net.Vault.Routes.Trace.Steps.{granted, handle_serial}

abbrev pub IsDistinct : List String → Type 0
IsDistinct [] = Unit
IsDistinct (t ∷ ts) = All (λ u. t ≢ u) ts × IsDistinct ts

-- The print of a counter value from `n` on.
abbrev IsFrom : ℕ → String → Type 0
IsFrom n t = (k : ℕ) × (n ≤ k) × (k < 2 ^ 64) × (t ≡ format_016x k)

later : (n : ℕ) (ts : List String) → All (IsFrom (n + 1)) ts → All (IsFrom n) ts
later n [] _ = tt
later n (t ∷ ts) ((k, le, lt, e), h) = ((k, omega arith, lt, e), later n ts h)

fresh_serial :
    (n : ℕ) (ts : List String)
    → n < 2 ^ 64
    → All (IsFrom (n + 1)) ts
    → All (λ u. format_016x n ≢ u) ts
fresh_serial n [] small _ = tt
fresh_serial n (t ∷ ts) small ((k, le, lt, e), h) = (
  λ same. absurd (omega (arith, format_016x_inj n k small lt (same ∙ e))),
  fresh_serial n ts small h,
)

module _ (d : Deps) where
  abbrev add_serial : Option String → List String → List String
  add_serial none ts = ts
  add_serial (some t) ts = t ∷ ts

  -- The serial numbers of the certificates among the replies.
  abbrev pub serials : List (Reply d) → List String
  serials [] = []
  serials (r ∷ rs) = add_serial (granted d r) (serials rs)

  serials_from :
      (rs : List (Env × Request d)) (s : Vault d) (n : ℕ)
      → s.serial_counter ≡ n
      → n + length rs < 2 ^ 64
      → All (IsFrom n) (serials (serve d rs s).0) × IsDistinct (serials (serve d rs s).0)
  unfolding serve
  serials_from [] s n at_n room = (tt, tt)
  serials_from ((env, req) ∷ rest) s n at_n room = elim (handle_serial d env req s) [
    | inl (same, none_granted) ↦
        rw none_granted (serials_from rest (handle d env req s).1 n (same ∙ at_n) (omega arith))
    | inr (moved, which) ↦
        let (from, distinct) =
          serials_from rest (handle d env req s).1 (n + 1) (omega arith) (omega arith) in
        elim which [
          | inl none_granted ↦ rw none_granted (later n _ from, distinct)
          | inr some_granted ↦ rw (some_granted ∙ ap (λ k. some (format_016x k)) at_n) (
            ((n, omega arith, omega arith, refl), later n _ from),
            (fresh_serial n _ (omega arith) from, distinct),
          )
        ]
  ]

  -- Whatever the requests, the certificates that a run grants have pairwise distinct serial numbers,
  -- as long as the counter cannot reach 2^64.
  pub serve-IsDistinct :
      (rs : List (Env × Request d)) (s : Vault d)
      → s.serial_counter + length rs < 2 ^ 64
      → IsDistinct (serials (serve d rs s).0)
  serve-IsDistinct rs s room = (serials_from rs s s.serial_counter refl room).1
