-- ===== src/Services/Accept/Trust.antt =====
-- Which certificates the accept loop serves with, and whom.
use mathlib.Core.List.{Memᴰ}
use secure_net.Base.{
  String, List, [], ◌∷◌, ◌≡◌, ◌≢◌, inl, inr, refl, subst, sym, Bool, false, All, All-append, arith,
}
use secure_net.Base.Result.{Result, ok, err, Result-cases}
use secure_net.External.Rustls.{Rustls}
use secure_net.Shared.Errors.{AppError}
use secure_net.Shared.Models.{CertBundle}
use secure_net.Shared.Tls.{build_root_store, server_config}
use secure_net.Shared.Tls.Laws.{server_config_lem}
use secure_net.Shared.Rotation.{RotatingTlsConfig, config_for}
use secure_net.Services.Accept.{
  Hyper, Connection, Phase, accepting, accepted, stopped, Server, LoopEvent, incoming, read_config,
  Write, inner_written, serial_written, Event, loop_event, write, loop_step, write_step, run,
  serve_mtls, swap, swaps, Merge, merged, from_loop, from_rotation, connection_task,
}

-- The bundles that the renewals gave.
abbrev pub granted : List (Result CertBundle AppError) → List CertBundle
granted [] = []
granted (ok bundle ∷ rs) = bundle ∷ granted rs
granted (err _ ∷ rs) = granted rs

All-Memᴰ : {A : Type 0} (P : A → Type 0) (x : A) (xs : List A) → All P xs → Memᴰ x xs → P x
All-Memᴰ P x [] h m = elim m [ ]
All-Memᴰ P x (y ∷ ys) (p, h) (Memᴰ.head e) = subst P (sym e) p
All-Memᴰ P x (y ∷ ys) (p, h) (Memᴰ.tail m) = All-Memᴰ P x ys h m

All_self : {A : Type 0} (P : A → Type 0) (xs : List A) → ((x : A) → Memᴰ x xs → P x) → All P xs
All_self P [] h = tt
All_self P (x ∷ xs) h = (h x (Memᴰ.head refl), All_self P xs (λ y m. h y (Memᴰ.tail m)))

module _ (tls : Rustls) (Stream : Type 0) (is_gateway : Bool) (bundles : List CertBundle) where
  -- A configuration of one of the bundles.
  abbrev pub IsBuilt : tls.ServerConfig → Type 0
  IsBuilt config =
      (bundle : CertBundle) × Memᴰ bundle bundles × (config_for tls is_gateway bundle ≡ ok config)

  abbrev IsWriteBuilt : Write tls Stream → Type 0
  IsWriteBuilt (inner_written config) = IsBuilt config
  IsWriteBuilt (serial_written serial) = Unit

  abbrev IsEventBuilt : Event tls Stream → Type 0
  IsEventBuilt (loop_event e) = Unit
  IsEventBuilt (write w) = IsWriteBuilt w

  swap_built_lem :
      (r : Result CertBundle AppError)
      → All (λ b. Memᴰ b bundles) (granted (r ∷ []))
      → All IsWriteBuilt (swap tls Stream is_gateway r)
  unfolding swap
  swap_built_lem (err e) _ = tt
  swap_built_lem (ok bundle) (m, _) = elim (Result-cases (config_for tls is_gateway bundle)) [
    | inr (e, bad) ↦ rw bad tt
    | inl (config, built) ↦ rw built ((bundle, m, built), (tt, tt))
  ]

  swaps_lem :
      (rs : List (Result CertBundle AppError))
      → All (λ b. Memᴰ b bundles) (granted rs)
      → All IsWriteBuilt (swaps tls Stream is_gateway rs)
  unfolding swaps
  swaps_lem [] _ = tt
  swaps_lem (err e ∷ rs) h =
      All-append IsWriteBuilt (swap tls Stream is_gateway (err e)) _ (swap_built_lem (err e) tt)
        (swaps_lem rs h)
  swaps_lem (ok bundle ∷ rs) (m, h) =
      All-append IsWriteBuilt (swap tls Stream is_gateway (ok bundle)) _
        (swap_built_lem (ok bundle) (m, tt)) (swaps_lem rs h)

  Merge_lem :
      {ls : List (LoopEvent tls Stream)} {ws : List (Write tls Stream)}
      {es : List (Event tls Stream)}
      → Merge tls Stream ls ws es
      → All IsWriteBuilt ws
      → All IsEventBuilt es
  Merge_lem merged h = tt
  Merge_lem (from_loop m) h = (tt, Merge_lem m h)
  Merge_lem (from_rotation m) (p, h) = (p, Merge_lem m h)

  record IsServed (s : Server tls Stream) : Type 0 where
    inner : IsBuilt s.tls_config.inner
    each : All (λ c. IsBuilt c.config) s.connections

  loop_step-IsServed :
      (e : LoopEvent tls Stream) (p : Phase tls Stream) (s : Server tls Stream)
      → IsServed s
      → IsServed (loop_step tls Stream e p s)
  unfolding loop_step
  loop_step-IsServed (incoming r) accepting s h = record { inner = h.inner; each = h.each }
  loop_step-IsServed (incoming r) (accepted stream peer) s h = h
  loop_step-IsServed (incoming r) (stopped e) s h = h
  loop_step-IsServed read_config accepting s h = h
  loop_step-IsServed read_config (accepted stream peer) s h = record {
    inner = h.inner;
    each = (h.inner, h.each);
  }
  loop_step-IsServed read_config (stopped e) s h = h

  write_step-IsServed :
      (w : Write tls Stream) (p : Phase tls Stream) (s : Server tls Stream)
      → IsWriteBuilt w
      → IsServed s
      → IsServed (write_step tls Stream w p s)
  unfolding write_step
  write_step-IsServed (inner_written c) accepting s b h = record { inner = b; each = h.each }
  write_step-IsServed (inner_written c) (accepted stream peer) s b h = record {
    inner = b;
    each = h.each;
  }
  write_step-IsServed (serial_written t) accepting s b h = record { inner = h.inner; each = h.each }
  write_step-IsServed (serial_written t) (accepted stream peer) s b h = record {
    inner = h.inner;
    each = h.each;
  }
  write_step-IsServed w (stopped e) s b h = h

  run-IsServed :
      (es : List (Event tls Stream)) (s : Server tls Stream)
      → All IsEventBuilt es
      → IsServed s
      → IsServed (run tls Stream es s)
  unfolding run
  run-IsServed [] s _ h = h
  run-IsServed (loop_event e ∷ es) s (_, hs) h =
      run-IsServed es _ hs (loop_step-IsServed e s.phase s h)
  run-IsServed (write w ∷ es) s (b, hs) h =
      run-IsServed es _ hs (write_step-IsServed w s.phase s b h)

module _ (tls : Rustls) (Stream : Type 0) where
  -- Whatever the order of the loop's steps and the writes of the rotation task, each connection's
  -- handshake uses a configuration of the bundle of the start or of one that a renewal gave, if the
  -- server starts with a configuration of the former.
  pub serve_mtls-IsBuilt :
      (is_gateway : Bool) (boot : CertBundle) (c : RotatingTlsConfig tls)
      (bound : Result (Unit {0}) String) (rs : List (Result CertBundle AppError))
      {ls : List (LoopEvent tls Stream)} {es : List (Event tls Stream)}
      → config_for tls is_gateway boot ≡ ok c.inner
      → Merge tls Stream ls (swaps tls Stream is_gateway rs) es
      → All
          (λ connection. IsBuilt tls Stream is_gateway (boot ∷ granted rs) connection.config)
          (serve_mtls tls Stream bound c es).connections
  unfolding serve_mtls
  serve_mtls-IsBuilt is_gateway boot c bound rs {ls} {es} built m =
      let bundles = boot ∷ granted rs in
      let renewed =
        swaps_lem tls Stream is_gateway bundles rs (All_self _ (granted rs) (λ b m. Memᴰ.tail m)) in
      (run-IsServed tls Stream is_gateway bundles es _
        (Merge_lem tls Stream is_gateway bundles m renewed)
        (record { inner = (boot, Memᴰ.head refl, built); each = tt })).each

  -- A spawned task with an effect has shaken hands.
  connection_task_lem :
      (hyper : Hyper tls.ServerConfig Stream) {W : Type 0}
      (app : hyper.Request → W → Result hyper.Response String × W)
      (connection : Connection tls Stream) (w : W)
      → connection_task tls Stream hyper app connection w ≢ w
      → (t : hyper.TlsStream) × (hyper.accept connection.config connection.stream ≡ ok t)
  unfolding connection_task
  connection_task_lem hyper app connection w effect =
      elim (Result-cases (hyper.accept connection.config connection.stream)) [
        | inl (t, shaken) ↦ (t, shaken)
        | inr (e, failed) ↦ absurd (effect (ground arith))
      ]

  -- A request changes something in a service that asks its clients for certificates only if the
  -- client showed one that the verifier accepts whose roots are the CA of the bundle of the start or
  -- of one that a renewal gave. This supposes that a handshake succeeds only with such a client if
  -- the configuration has a verifier, and that the server starts with a configuration of its bundle.
  pub served_only_verified :
      (hyper : Hyper tls.ServerConfig Stream) {W : Type 0}
      (IsVerified : tls.ClientCertVerifier → Stream → Type 0)
      (app : hyper.Request → W → Result hyper.Response String × W) (boot : CertBundle)
      (c : RotatingTlsConfig tls) (bound : Result (Unit {0}) String)
      (rs : List (Result CertBundle AppError)) {ls : List (LoopEvent tls Stream)}
      {es : List (Event tls Stream)} (connection : Connection tls Stream) (w : W)
      → ((verifier : tls.ClientCertVerifier) (chain : List tls.CertificateDer)
            (key : tls.PrivateKeyDer) (config : tls.ServerConfig) (stream : Stream)
            (t : hyper.TlsStream)
          → tls.server_with_client_auth verifier chain key ≡ ok config
          → hyper.accept config stream ≡ ok t
          → IsVerified verifier stream)
      → server_config tls boot ≡ ok c.inner
      → Merge tls Stream ls (swaps tls Stream false rs) es
      → Memᴰ connection (serve_mtls tls Stream bound c es).connections
      → connection_task tls Stream hyper app connection w ≢ w
      → (bundle : CertBundle) × Memᴰ bundle (boot ∷ granted rs)
        × (store : tls.RootCertStore) × (verifier : tls.ClientCertVerifier) × (build_root_store tls
              bundle.ca_pem
            ≡ ok store)
        × (tls.client_cert_verifier store ≡ ok verifier)
        × IsVerified verifier connection.stream
  unfolding config_for
  served_only_verified hyper IsVerified app boot c bound rs connection w handshake built m at
        effect =
      let (t, shaken) = connection_task_lem hyper app connection w effect in
      let (bundle, from, made) =
        All-Memᴰ (λ conn. IsBuilt tls Stream false (boot ∷ granted rs) conn.config) connection _
          (serve_mtls-IsBuilt false boot c bound rs built m) at in
      let (chain, key, store, verifier, _, _, stored, verifies, configured) =
        server_config_lem tls bundle connection.config made in
      (
        bundle,
        from,
        store,
        verifier,
        stored,
        verifies,
        handshake verifier chain key _ connection.stream t configured shaken,
      )
