-- ===== src/Transport/Laws.antt =====
-- What dialling leaves of the world.
use pulsemq_cli.Base.{
  ◌+◌, ◌++◌, Bool, true, false, Option, none, some, Bytes, text, ◌≡◌, refl, sym, subst, arith, inl,
  inr, Option-cases,
}
use pulsemq_cli.Cli.{ConnectionArgs, port}
use pulsemq_cli.Host.{Host}
use pulsemq_cli.Password.{warn_if_plaintext_password}
use pulsemq_cli.Io.{World, Outcome, done, failed, waiting, panicked, stuck, Action, and_then}
use pulsemq_cli.Io.Laws.{Ensures, and_then-Ensures, weaken-Ensures}
use pulsemq_cli.Error.{Error, usage, mqtt}
use pulsemq_cli.Mqtt.{io}
use pulsemq_cli.Network.{Attempt, succeeded, refused, unanswered, attempt}
use pulsemq_cli.Transport.{io_error, Stream, tcp, tls, ws, wss, wrap, connect, unless_io_error}
use pulsemq_cli.Transport.Tls
use pulsemq_cli.Transport.Tls.Outcomes.{Settles}
use pulsemq_cli.Transport.Tls.Laws.{build_config-Settles}
use pulsemq_cli.Transport.Ws.Upgrade
use pulsemq_cli.Transport.Ws.Upgrade.{request_uri, upgrade_request}

-- At most warnings have been added.
abbrev pub Warned : World → World → Type 0
Warned w v = v ≡ record w { warnings = v.warnings }

Settles-Warned :
    {A : Type 0} (Q : A → World → Type 0) (w : World) (m : Outcome World A)
    → Settles Q w m
    → Ensures (λ _ v. Warned w v) (Warned w) m
Settles-Warned Q w (done a v) h = h.1
Settles-Warned Q w (failed e v) h = tt
Settles-Warned Q w (waiting v) h = absurd h
Settles-Warned Q w panicked h = h
Settles-Warned Q w stuck h = h

-- The part is done, or waits, with the world as it was, or it fails.
abbrev Passes : {A : Type 0} → World → Outcome World A → Type 0
Passes w m = Ensures (λ _ v. v ≡ w) (λ v. v ≡ w) m

unless_named-Passes :
    (host : Host) (a : ConnectionArgs) (o : Option Bytes) (w : World)
    → Passes w (Tls.unless_named host a o w)
unless_named-Passes host a none w = refl
unless_named-Passes host a (some e) w = tt

attempt-Passes :
    (to_error : Bytes → Error) (o : Attempt) (w : World) → Passes w (attempt to_error o w)
attempt-Passes to_error succeeded w = refl
attempt-Passes to_error (refused e) w = tt
attempt-Passes to_error unanswered w = refl

unless_io_error-Passes : (o : Option Bytes) (w : World) → Passes w (unless_io_error o w)
unless_io_error-Passes none w = refl
unless_io_error-Passes (some e) w = tt

-- A part that passes, before one that is known from the same world.
and_then-Passes :
    {A B : Type 0} (Q : B → World → Type 0) (W : World → Type 0) (w : World) (m : Outcome World A)
    (f : A → Action World B)
    → Passes w m
    → W w
    → ((a : A) → Ensures Q W (f a w))
    → Ensures Q W (and_then m f)
and_then-Passes Q W w m f h i k =
    and_then-Ensures (λ _ v. v ≡ w) W Q m f
      (weaken-Ensures (λ _ v. v ≡ w) (λ v. v ≡ w) (λ _ v. v ≡ w) W m h (λ a v e. e)
        (λ v e. subst W (sym e) i))
      (λ a v e. subst (λ u. Ensures Q W (f a u)) (sym e) (k a))

tls-Warned :
    (host : Host) (a : ConnectionArgs) (w : World)
    → Ensures (λ _ v. Warned w v) (Warned w) (Tls.wrap host a w)
unfolding Tls.wrap
tls-Warned host a w =
    and_then-Ensures (λ _ v. Warned w v) (Warned w) _ (Tls.build_config host a w) _
      (Settles-Warned _ w (Tls.build_config host a w) (build_config-Settles host a w))
      (λ config v h.
        and_then-Passes (λ _ u. Warned w u) (Warned w) v _ _
          (unless_named-Passes host a (host.rustls.server_name_error a.broker) v) h
          (λ _.
            weaken-Ensures (λ _ u. u ≡ v) (λ u. u ≡ v) (λ _ u. Warned w u) (Warned w) _
              (attempt-Passes (λ e. mqtt (io e)) (host.rustls.handshake config a.broker) v)
              (λ _ u e. subst (Warned w) (sym e) h) (λ u e. subst (Warned w) (sym e) h)))

ws-Passes : (host : Host) (a : ConnectionArgs) (w : World) → Passes w (Upgrade.wrap host a w)
unfolding Upgrade.wrap
ws-Passes host a w = elim (Option-cases (host.tungstenite.uri_error (request_uri a))) [
  | inr (x, e) ↦ rw (Upgrade.wrap, e) tt
  | inl e ↦ elim (Option-cases (host.tungstenite.request_error (upgrade_request a))) [
    | inr (x, f) ↦ rw (Upgrade.wrap, e, f) tt
    | inl f ↦
        rw (Upgrade.wrap, e, f)
          (attempt-Passes (λ x. usage (text "WebSocket Upgrade failed: " ++ x))
            (host.tungstenite.upgrade (upgrade_request a)) w)
  ]
]

-- Which transport the flags ask for.
abbrev pub transport_of : Bool → Bool → Stream
transport_of true true = wss
transport_of true false = tls
transport_of false true = ws
transport_of false false = tcp

wrap-Warned :
    (host : Host) (a : ConnectionArgs) (secure web : Bool) (w : World)
    → Ensures
        (λ s v. (s ≡ transport_of secure web) × Warned w v)
        (Warned w)
        (wrap host a secure web w)
unfolding wrap
wrap-Warned host a true true w =
    and_then-Ensures (λ _ v. Warned w v) (Warned w) _ (Tls.wrap host a w) _ (tls-Warned host a w)
      (λ _ v h.
        and_then-Passes (λ s u. (s ≡ wss) × Warned w u) (Warned w) v _ _ (ws-Passes host a v) h
          (λ _. (refl, h)))
wrap-Warned host a true false w =
    and_then-Ensures (λ _ v. Warned w v) (Warned w) _ (Tls.wrap host a w) _ (tls-Warned host a w)
      (λ _ v h. (refl, h))
wrap-Warned host a false true w =
    and_then-Passes (λ s v. (s ≡ ws) × Warned w v) (Warned w) w _ _ (ws-Passes host a w) refl
      (λ _. (refl, refl))
wrap-Warned host a false false w = (refl, refl)

-- One TCP connection has been made, and nothing was read, written or printed but warnings.
abbrev pub Dialled : World → World → Type 0
Dialled w v =
    v
    ≡ record w { warnings = v.warnings; warned_plaintext = v.warned_plaintext; dials = w.dials + 1 }

warn_if_plaintext_password_shape :
    (host : Host) (a : ConnectionArgs) (w : World)
    → let v = warn_if_plaintext_password host a w in
      v ≡ record w { warnings = v.warnings; warned_plaintext = v.warned_plaintext }
unfolding warn_if_plaintext_password
warn_if_plaintext_password_shape host a w = ground arith

-- Dialling ends or waits. When it succeeds it has made one TCP connection, which is wrapped in TLS
-- and WebSocket just as --tls and --websocket ask; then, and while it waits, it has changed nothing
-- but the warnings and the count of connections.
pub connect-Dialled :
    (host : Host) (a : ConnectionArgs) (w : World)
    → Ensures
        (λ s v. (s ≡ transport_of a.tls a.websocket) × Dialled w v)
        (Dialled w)
        (connect host a w)
unfolding connect
connect-Dialled host a w =
    let Q : Stream → World → Type 0 = λ s x. (s ≡ transport_of a.tls a.websocket) × Dialled w x in
    let u : World = warn_if_plaintext_password host a w in
    let v : World = record u { dials = u.dials + 1 } in
    let e : Dialled w v = cc (warn_if_plaintext_password_shape host a w) in
    let wrapped : Ensures Q (Dialled w) (wrap host a a.tls a.websocket v) =
      weaken-Ensures (λ s x. (s ≡ transport_of a.tls a.websocket) × Warned v x) (Warned v) Q
        (Dialled w) (wrap host a a.tls a.websocket v) (wrap-Warned host a a.tls a.websocket v)
        (λ s x h. (h.0, cc (e, h.1))) (λ x h. cc (e, h)) in
    and_then-Passes {A = Unit {0}} Q (Dialled w) v
      (attempt io_error (host.tcp_connect a.broker (port a)) v)
      (λ _ x. and_then (unless_io_error host.set_nodelay x) λ _. wrap host a a.tls a.websocket)
      (attempt-Passes io_error (host.tcp_connect a.broker (port a)) v) e
      (λ _.
        and_then-Passes {A = Unit {0}} Q (Dialled w) v (unless_io_error host.set_nodelay v)
          (λ _. wrap host a a.tls a.websocket) (unless_io_error-Passes host.set_nodelay v) e
          (λ _. wrapped))
