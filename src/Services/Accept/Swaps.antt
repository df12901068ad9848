-- ===== src/Services/Accept/Swaps.antt =====
-- What the accept loop and the rotation task do to each other.
use secure_net.Base.{
  String, List, [], ◌∷◌, ◌++◌, ◌≡◌, refl, sym, ap, ◌∙◌, subst, All, All-append, map,
}
use mathlib.Core.List.{append_assoc}
use secure_net.Base.Result.{Result, err}
use secure_net.External.Rustls.{Rustls}
use secure_net.Shared.Rotation.{RotatingTlsConfig}
use secure_net.Services.Accept.{
  inner_written, Connection, Phase, accepting, accepted, stopped, Server, LoopEvent, incoming,
  read_config, Event, loop_event, write, loop_step, write_step, step, run, serve_mtls,
}

module _ (tls : Rustls) (Stream : Type 0) where
  run-append :
      (es fs : List (Event tls Stream)) (s : Server tls Stream)
      → run tls Stream (es ++ fs) s ≡ run tls Stream fs (run tls Stream es s)
  unfolding run
  run-append [] fs s = refl
  run-append (e ∷ es) fs s = run-append es fs (step tls Stream e s)

  loop_step_stopped :
      (l : LoopEvent tls Stream) (e : String) (s : Server tls Stream)
      → loop_step tls Stream l (stopped e) s ≡ s
  unfolding loop_step
  loop_step_stopped (incoming r) e s = refl
  loop_step_stopped read_config e s = refl

  pub step_stopped :
      (ev : Event tls Stream) (e : String) (s : Server tls Stream)
      → s.phase ≡ stopped e
      → step tls Stream ev s ≡ s
  unfolding step write_step
  step_stopped (loop_event l) e s h =
      ap (λ p. loop_step tls Stream l p s) h ∙ loop_step_stopped l e s
  step_stopped (write w) e s h = ap (λ p. write_step tls Stream w p s) h

  pub run_stopped :
      (es : List (Event tls Stream)) (e : String) (s : Server tls Stream)
      → s.phase ≡ stopped e
      → run tls Stream es s ≡ s
  unfolding run
  run_stopped [] e s h = refl
  run_stopped (ev ∷ es) e s h =
      ap (run tls Stream es) (step_stopped ev e s h) ∙ run_stopped es e s h

  failing :
      (e : String) (s : Server tls Stream)
      → s.phase ≡ accepting
      → step tls Stream (loop_event (incoming (err e))) s ≡ record s { phase = stopped e }
  unfolding step loop_step
  failing e s waits = ap (λ p. loop_step tls Stream (incoming (err e)) p s) waits

  -- If the loop waits for a stream and `accept` fails, whatever the error, then the process ends and
  -- no later stream is served: the state is that of the failure, whatever would come after it.
  pub accept_error_stops :
      (bound : Result (Unit {0}) String) (c : RotatingTlsConfig tls)
      (es fs : List (Event tls Stream)) (e : String)
      → (serve_mtls tls Stream bound c es).phase ≡ accepting
      → serve_mtls tls Stream bound c (es ++ (loop_event (incoming (err e)) ∷ fs))
        ≡ record (serve_mtls tls Stream bound c es) { phase = stopped e }
  unfolding serve_mtls
  accept_error_stops bound c es fs e waits =
      let fail = loop_event (incoming (err e)) in
      let s = serve_mtls tls Stream bound c es in
      run-append es (fail ∷ fs) _
      ∙ ap (run tls Stream fs) (failing e s waits)
      ∙ run_stopped fs e (record s { phase = stopped e }) refl

  -- Writes and reads as seen by the connections that they lead to.
  abbrev AllFrom : tls.ServerConfig → List (Connection tls Stream) → Type 0
  AllFrom config = All (λ connection. connection.config ≡ config)

  -- The connections that are added while the configuration stays.
  abbrev Adds : tls.ServerConfig → Server tls Stream → Server tls Stream → Type 0
  Adds config s s' =
      (added : List (Connection tls Stream)) × (s'.connections ≡ added ++ s.connections)
      × AllFrom config added
      × (s'.tls_config ≡ s.tls_config)

  loop_step-Adds :
      (l : LoopEvent tls Stream) (p : Phase tls Stream) (s : Server tls Stream)
      → Adds s.tls_config.inner s (loop_step tls Stream l p s)
  unfolding loop_step
  loop_step-Adds (incoming r) accepting s = ([], refl, tt, refl)
  loop_step-Adds (incoming r) (accepted stream peer) s = ([], refl, tt, refl)
  loop_step-Adds (incoming r) (stopped e) s = ([], refl, tt, refl)
  loop_step-Adds read_config accepting s = ([], refl, tt, refl)
  loop_step-Adds read_config (accepted stream peer) s = (_ ∷ [], refl, (refl, tt), refl)
  loop_step-Adds read_config (stopped e) s = ([], refl, tt, refl)

  run-Adds :
      (ls : List (LoopEvent tls Stream)) (s : Server tls Stream)
      → Adds s.tls_config.inner s (run tls Stream (map loop_event ls) s)
  unfolding run step
  run-Adds [] s = ([], refl, tt, refl)
  run-Adds (l ∷ ls) s =
      let (one, spawned, from, same) = loop_step-Adds l s.phase s in
      let (more, spawned', from', same') = run-Adds ls (loop_step tls Stream l s.phase s) in
      (
        more ++ one,
        spawned' ∙ ap (λ cs. more ++ cs) spawned ∙ sym (append_assoc more one s.connections),
        All-append _ more one (subst (λ c. AllFrom c.inner more) same from') from,
        same' ∙ same,
      )

  -- Before or after it, a write to the configuration does not change what the earlier tasks hold.
  write_then_adds :
      (config : tls.ServerConfig) (ls : List (LoopEvent tls Stream)) (p : Phase tls Stream)
      (s : Server tls Stream)
      → s.phase ≡ p
      → (added : List (Connection tls Stream)) × ((run tls Stream
            (map loop_event ls)
            (write_step tls Stream (inner_written config) p s)).connections
          ≡ added ++ s.connections)
        × AllFrom config added
  unfolding write_step
  write_then_adds config ls accepting s at =
      let (added, spawned, from, _) =
        run-Adds ls (write_step tls Stream (inner_written config) accepting s) in
      (added, spawned, from)
  write_then_adds config ls (accepted stream peer) s at =
      let (added, spawned, from, _) =
        run-Adds ls (write_step tls Stream (inner_written config) (accepted stream peer) s) in
      (added, spawned, from)
  write_then_adds config ls (stopped e) s at =
      ([], ap (λ s. s.connections) (run_stopped (map loop_event ls) e s at), tt)

  -- When the rotation task has written a configuration, the tasks that were spawned before keep
  -- theirs, and all that are spawned from then to the next write use the new one, also for a stream
  -- that had been accepted when the configuration was written.
  pub swap_seen :
      (bound : Result (Unit {0}) String) (c : RotatingTlsConfig tls) (es : List (Event tls Stream))
      (config : tls.ServerConfig) (ls : List (LoopEvent tls Stream))
      → (added : List (Connection tls Stream)) × ((serve_mtls tls Stream bound c
            (es ++ (write (inner_written config) ∷ map loop_event ls))).connections
          ≡ added ++ (serve_mtls tls Stream bound c es).connections)
        × All (λ connection. connection.config ≡ config) added
  unfolding serve_mtls
  swap_seen bound c es config ls =
      let s = serve_mtls tls Stream bound c es in
      let (added, spawned, from) = write_then_adds config ls s.phase s refl in
      (
        added,
        ap (λ s. s.connections) (run-append es (write (inner_written config) ∷ map loop_event ls) _)
            ∙ (unfold step in spawned),
        from,
      )
