-- ===== src/Services/Accept.antt =====
-- The accept loop `serve_mtls` that the main.rs of api-gateway, user-service and order-service have in
-- common, next to the writes of the rotation task of shared/src/rotation.rs.
pub mod Trust
pub mod Swaps
pub mod Rotating
use secure_net.Base.{String, List, [], ◌∷◌, ◌++◌, ℕ, Bool}
use secure_net.Base.Result.{Result, ok, err}
use secure_net.External.Rustls.{Rustls}
use secure_net.Shared.Errors.{AppError}
use secure_net.Shared.Models.{CertBundle}
use secure_net.Shared.Rotation.{RotatingTlsConfig, config_for, current}

-- `tokio_rustls` and `hyper`: the handshake of a stream, and the requests of a connection, which a
-- service answers. `W` is what a request can change.
pub record Hyper (ServerConfig Stream : Type 0) : Type 1 where
  pub TlsStream : Type 0
  pub Request : Type 0
  pub Response : Type 0
  pub empty_response : ℕ → Response
  pub accept : ServerConfig → Stream → Result TlsStream String
  pub serve_connection :
      {W : Type 0} → (Request → W → Response × W) → TlsStream → W → Result (Unit {0}) String × W

module _ (tls : Rustls) (Stream : Type 0) where
  -- What a spawned task works on.
  pub record Connection : Type 0 where
    pub stream : Stream
    pub peer_addr : String
    pub config : tls.ServerConfig

  -- The loop waits for a stream, or for the lock of the configuration with a stream at hand, or the
  -- process has ended with an error.
  pub data Phase : Type 0 where
    accepting : Phase
    accepted : Stream → String → Phase
    stopped : String → Phase

  -- The tasks are listed from the last one on.
  pub record Server : Type 0 where
    pub tls_config : RotatingTlsConfig tls
    pub phase : Phase
    pub connections : List Connection

  -- The loop's own steps: `accept` returns, and the lock is free.
  pub data LoopEvent : Type 0 where
    incoming : Result (Stream × String) String → LoopEvent
    read_config : LoopEvent

  -- The two writes of the rotation task.
  pub data Write : Type 0 where
    inner_written : tls.ServerConfig → Write
    serial_written : String → Write

  pub data Event : Type 0 where
    loop_event : LoopEvent → Event
    write : Write → Event

  abbrev next_phase : Result (Stream × String) String → Phase
  next_phase (ok (stream, peer_addr)) = accepted stream peer_addr
  next_phase (err e) = stopped e

  abbrev spawn : Stream → String → Server → Server
  spawn stream peer_addr s = record {
    tls_config = s.tls_config;
    phase = accepting;
    connections =
        record { stream = stream; peer_addr = peer_addr; config = current tls s.tls_config }
        ∷ s.connections;
  }

  -- An event that the loop does not wait for does not happen.
  unfoldable pub loop_step : LoopEvent → Phase → Server → Server
  loop_step (incoming r) accepting s = record s { phase = next_phase r }
  loop_step read_config (accepted stream peer_addr) s = spawn stream peer_addr s
  loop_step _ _ s = s

  unfoldable pub apply_write : Write → RotatingTlsConfig tls → RotatingTlsConfig tls
  apply_write (inner_written config) c = record c { inner = config }
  apply_write (serial_written serial) c = record c { serial = serial }

  unfoldable pub write_step : Write → Phase → Server → Server
  unfolding apply_write
  write_step w (stopped e) s = s
  write_step w _ s = record s { tls_config = apply_write w s.tls_config }

  unfoldable pub step : Event → Server → Server
  unfolding loop_step write_step
  step (loop_event e) s = loop_step e s.phase s
  step (write w) s = write_step w s.phase s

  unfoldable pub run : List Event → Server → Server
  unfolding step
  run [] s = s
  run (e ∷ es) s = run es (step e s)

  abbrev bound_phase : Result (Unit {0}) String → Phase
  bound_phase (ok _) = accepting
  bound_phase (err e) = stopped e

  -- `bound` is what binding the address gives. The acceptor that is passed in is not used.
  unfoldable pub serve_mtls : Result (Unit {0}) String → RotatingTlsConfig tls → List Event → Server
  unfolding run
  serve_mtls bound tls_config events =
      run events (record { tls_config = tls_config; phase = bound_phase bound; connections = [] })

  -- The writes of `rotation_loop` for the result of one renewal.
  swap_built : String → Result tls.ServerConfig AppError → List Write
  swap_built serial (err e) = []
  swap_built serial (ok config) = inner_written config ∷ serial_written serial ∷ []

  unfoldable pub swap : Bool → Result CertBundle AppError → List Write
  unfolding swap_built
  swap is_gateway (err e) = []
  swap is_gateway (ok bundle) = swap_built bundle.serial (config_for tls is_gateway bundle)

  unfoldable pub swaps : Bool → List (Result CertBundle AppError) → List Write
  unfolding swap
  swaps is_gateway [] = []
  swaps is_gateway (r ∷ rs) = swap is_gateway r ++ swaps is_gateway rs

  -- The events in some order that keeps the order of the loop and that of the rotation task.
  pub data Merge : List LoopEvent → List Write → List Event → Type 0 where
    merged : Merge [] [] []
    from_loop :
        {l : LoopEvent} {ls : List LoopEvent} {ws : List Write} {es : List Event}
        → Merge ls ws es
        → Merge (l ∷ ls) ws (loop_event l ∷ es)
    from_rotation :
        {w : Write} {ls : List LoopEvent} {ws : List Write} {es : List Event}
        → Merge ls ws es
        → Merge ls (w ∷ ws) (write w ∷ es)

  module _ (hyper : Hyper tls.ServerConfig Stream) where
    -- `app.call(req).await.unwrap_or_else(..)`
    abbrev or_500 : Result hyper.Response String → hyper.Response
    or_500 (ok response) = response
    or_500 (err _) = hyper.empty_response 500

    abbrev service_fn :
        {W : Type 0}
        → (hyper.Request → W → Result hyper.Response String × W)
        → hyper.Request
        → W
        → hyper.Response × W
    service_fn app req w = let (answer, w') = app req w in (or_500 answer, w')

    -- The body of the spawned task. Neither a failed handshake nor a closed connection is passed on.
    unfoldable pub connection_task :
        {W : Type 0} → (hyper.Request → W → Result hyper.Response String × W) → Connection → W → W
    connection_task app connection w = elim (hyper.accept connection.config connection.stream) [
      | ok tls_stream ↦ (hyper.serve_connection (service_fn app) tls_stream w).1
      | err _ ↦ w
    ]
