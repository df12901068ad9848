-- ===== src/Services/Accept/Rotating.antt =====
-- The accept loop leaves the rotation task of shared/src/rotation.rs alone.
use secure_net.Base.{String, List, [], ◌∷◌, ◌++◌, ◌≡◌, ◌≢◌, inl, inr, refl, sym, ap, ◌∙◌, arith}
use secure_net.Base.Result.{Result, ok, err, Result-cases}
use secure_net.External.Rustls.{Rustls}
use secure_net.Shared.Errors.{AppError}
use secure_net.Shared.Models.{CertBundle, DateTime}
use secure_net.Shared.Rotation.{RotatingTlsConfig, Rotation, config_for, install}
use secure_net.Services.Accept.{
  Phase, accepting, accepted, stopped, Server, LoopEvent, incoming, read_config, Write, Event,
  loop_step, apply_write, write_step, step, run, serve_mtls, swap, swaps, Merge, merged, from_loop,
  from_rotation,
}
use secure_net.Services.Accept.Swaps.{run_stopped}

module _ (tls : Rustls) where
  -- The results of the renewals, each installed in one step, with the time of each.
  abbrev pub installs : List (Result CertBundle AppError × DateTime) → Rotation tls → Rotation tls
  installs [] r = r
  installs ((renewed, now) ∷ rest) r = installs rest (install tls renewed now r)

  abbrev pub results :
      List (Result CertBundle AppError × DateTime) → List (Result CertBundle AppError)
  results [] = []
  results ((renewed, _) ∷ rest) = renewed ∷ results rest

  module _ (Stream : Type 0) where
    abbrev apply_writes : List (Write tls Stream) → RotatingTlsConfig tls → RotatingTlsConfig tls
    apply_writes [] c = c
    apply_writes (w ∷ ws) c = apply_writes ws (apply_write tls Stream w c)

    apply_writes-append :
        (ws vs : List (Write tls Stream)) (c : RotatingTlsConfig tls)
        → apply_writes (ws ++ vs) c ≡ apply_writes vs (apply_writes ws c)
    apply_writes-append [] vs c = refl
    apply_writes-append (w ∷ ws) vs c = apply_writes-append ws vs (apply_write tls Stream w c)

    swap-install :
        (renewed : Result CertBundle AppError) (now : DateTime) (r : Rotation tls)
        → apply_writes (swap tls Stream r.config.is_gateway renewed) r.config
          ≡ (install tls renewed now r).config
    unfolding swap install apply_write
    swap-install (err e) now r = refl
    swap-install (ok bundle) now r =
        elim (Result-cases (config_for tls r.config.is_gateway bundle)) [
          | inr (e, bad) ↦ ground arith
          | inl (config, built) ↦ ground arith
        ]

    install-is_gateway :
        (renewed : Result CertBundle AppError) (now : DateTime) (r : Rotation tls)
        → (install tls renewed now r).config.is_gateway ≡ r.config.is_gateway
    unfolding install
    install-is_gateway (err e) now r = refl
    install-is_gateway (ok bundle) now r =
        elim (Result-cases (config_for tls r.config.is_gateway bundle)) [
          | inr (e, bad) ↦ ground arith
          | inl (config, built) ↦ ground arith
        ]

    swaps-installs :
        (rs : List (Result CertBundle AppError × DateTime)) (r : Rotation tls)
        → apply_writes (swaps tls Stream r.config.is_gateway (results rs)) r.config
          ≡ (installs rs r).config
    unfolding swaps
    swaps-installs [] r = refl
    swaps-installs ((renewed, now) ∷ rest) r =
        let after = install tls renewed now r in
        apply_writes-append (swap tls Stream r.config.is_gateway renewed) _ r.config
        ∙ ap (apply_writes (swaps tls Stream r.config.is_gateway (results rest)))
            (swap-install renewed now r)
        ∙ ap (λ g. apply_writes (swaps tls Stream g (results rest)) after.config)
            (sym (install-is_gateway renewed now r))
        ∙ swaps-installs rest after

    loop_step_config :
        (l : LoopEvent tls Stream) (p : Phase tls Stream) (s : Server tls Stream)
        → (loop_step tls Stream l p s).tls_config ≡ s.tls_config
    unfolding loop_step
    loop_step_config (incoming r) accepting s = refl
    loop_step_config (incoming r) (accepted stream peer) s = refl
    loop_step_config (incoming r) (stopped e) s = refl
    loop_step_config read_config accepting s = refl
    loop_step_config read_config (accepted stream peer) s = refl
    loop_step_config read_config (stopped e) s = refl

    -- A server that is still running at the end has made every write.
    abbrev IsRunning : Server tls Stream → Type 0
    IsRunning s = (e : String) → s.phase ≢ stopped e

    write_made :
        (w : Write tls Stream) (es : List (Event tls Stream)) (s : Server tls Stream)
        (p : Phase tls Stream)
        → s.phase ≡ p
        → IsRunning (run tls Stream es (write_step tls Stream w p s))
        → (write_step tls Stream w p s).tls_config ≡ apply_write tls Stream w s.tls_config
    unfolding write_step
    write_made w es s accepting at running = refl
    write_made w es s (accepted stream peer) at running = refl
    write_made w es s (stopped e) at running =
        absurd (running e (ap (λ s. s.phase) (run_stopped tls Stream es e s at) ∙ at))

    run_config :
        {ls : List (LoopEvent tls Stream)} {ws : List (Write tls Stream)}
        {es : List (Event tls Stream)}
        → Merge tls Stream ls ws es
        → (s : Server tls Stream) → IsRunning (run tls Stream es s)
        → (run tls Stream es s).tls_config ≡ apply_writes ws s.tls_config
    unfolding run step
    run_config merged s running = refl
    run_config (from_loop {l} {ls} {ws} {es} m) s running =
        run_config m (loop_step tls Stream l s.phase s) running
        ∙ ap (apply_writes ws) (loop_step_config l s.phase s)
    run_config (from_rotation {w} {ls} {ws} {es} m) s running =
        run_config m (write_step tls Stream w s.phase s) running
        ∙ ap (apply_writes ws) (write_made w es s s.phase refl running)

    -- Whatever the order of the writes and the steps of the loop, a server that is still running at the
    -- end has the configuration and the serial number that the renewals install one after another.
    pub serve_mtls-installs :
        (bound : Result (Unit {0}) String) (r : Rotation tls)
        (rs : List (Result CertBundle AppError × DateTime)) {ls : List (LoopEvent tls Stream)}
        {es : List (Event tls Stream)}
        → Merge tls Stream ls (swaps tls Stream r.config.is_gateway (results rs)) es
        → ((e : String) → (serve_mtls tls Stream bound r.config es).phase ≢ stopped e)
        → (serve_mtls tls Stream bound r.config es).tls_config ≡ (installs rs r).config
    unfolding serve_mtls
    serve_mtls-installs bound r rs m running = run_config m _ running ∙ swaps-installs rs r
