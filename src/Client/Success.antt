-- ===== src/Client/Success.antt =====
-- When a client gets its connection.
use pulsemq_cli.Base.{
  ℕ, ◌+◌, Bool, true, false, not, ◌&&◌, none, some, Option, List, [], ◌∷◌, ◌++◌, Bytes, bytes_eq,
  inr, ◌≡◌, refl, sym, ap, subst, ◌∙◌, arith, ◌==◌, ◌⊎◌,
}
use pulsemq_cli.Mqtt.{Protocol, Will, Connack, connack, Packet, ProtocolVersion}
use pulsemq_cli.Error.{or_usage}
use pulsemq_cli.Cli
use pulsemq_cli.Cli.{ConnectionArgs, port}
use pulsemq_cli.Host.{Host}
use pulsemq_cli.Password.{password, password_value, warn_if_plaintext_password}
use pulsemq_cli.Password.Laws.{password_shape}
use pulsemq_cli.Io.Success.{Gives, and_then-Gives}
use pulsemq_cli.Io.{
  Event, arrived, World, Action, and_then, read_packet, read_from, write_packet, lift_result,
  expect,
}
use pulsemq_cli.Transport
use pulsemq_cli.Network.{Attempt, succeeded, attempt}
use pulsemq_cli.Transport.{io_error, Stream, tcp, wrap, unless_io_error}
use pulsemq_cli.Client.{
  Client, Negotiated, connect_client, client_id_for, refuse_unnamed, handshake, check_connack,
  password_error, send, on_stream_done,
}
use pulsemq_cli.Client.Calm.{write_packet_calm}

unless_then :
    {A : Type 0} (Q : A → World → Type 0) (o : Option Bytes) (w : World) (f : Action World A)
    → o ≡ none
    → Gives Q (f w)
    → Gives Q (and_then (unless_io_error o w) λ _. f)
unless_then Q o w f e h = subst (λ x. Gives Q (and_then (unless_io_error x w) λ _. f)) (sym e) h

attempted_then :
    {A : Type 0} (Q : A → World → Type 0) (o : Attempt) (w : World) (f : Action World A)
    → o ≡ succeeded
    → Gives Q (f w)
    → Gives Q (and_then (attempt io_error o w) λ _. f)
attempted_then Q o w f e h = subst (λ x. Gives Q (and_then (attempt io_error x w) λ _. f)) (sym e) h

lifted_then :
    {A B : Type 0} (Q : B → World → Type 0) (before : Bytes) (r : Bytes ⊎ A) (a : A) (w : World)
    (f : A → Action World B)
    → r ≡ inr a
    → Gives Q (f a w)
    → Gives Q (and_then (lift_result (or_usage before r) w) f)
lifted_then Q before r a w f e h =
    subst (λ x. Gives Q (and_then (lift_result (or_usage before x) w) f)) (sym e) h

expected_then :
    {A B : Type 0} (Q : B → World → Type 0) (o : Option A) (a : A) (w : World)
    (f : A → Action World B)
    → o ≡ some a
    → Gives Q (f a w)
    → Gives Q (and_then (expect o w) f)
expected_then Q o a w f e h = subst (λ x. Gives Q (and_then (expect x w) f)) (sym e) h

written_then :
    {A : Type 0} (Q : A → World → Type 0) (p : Packet) (w : World) (f : Action World A)
    → w.fault w.writes ≡ none
    → Gives Q (f (record w { sent = w.sent ++ (p ∷ []); writes = w.writes + 1 }))
    → Gives Q (and_then (write_packet p w) λ _. f)
written_then Q p w f e h =
    subst (λ o. Gives Q (and_then o λ _. f)) (sym (write_packet_calm p w e)) h

-- A client that can write, with `es` to come.
abbrev pub Live : List Event → Client → Type 0
Live es c = (c.stream.incoming ≡ es) × ((n : ℕ) → c.stream.fault n ≡ none)

pub send-Live :
    (es : List Event) (p : Packet) (c : Client) → Live es c → Gives (λ _ d. Live es d) (send p c)
unfolding send on_stream_done
send-Live es p c h =
    let w : World = record c.stream {
      sent = c.stream.sent ++ (p ∷ []);
      writes = c.stream.writes + 1;
    } in
    (
      tt,
      record c { stream = w },
      ap (on_stream_done c) (write_packet_calm p c.stream (h.1 c.stream.writes)),
      h,
    )

-- What a session rests on: `es` are still to come, and no write fails.
abbrev pub Fit : List Event → World → Type 0
Fit es w = (w.incoming ≡ es) × ((n : ℕ) → w.fault n ≡ none)

plaintext-Fit :
    (host : Host) (args : ConnectionArgs) (es : List Event) (w : World)
    → Fit es w
    → Fit es (warn_if_plaintext_password host args w)
unfolding warn_if_plaintext_password
plaintext-Fit host args es w h = ground arith

password-Fit :
    (host : Host) (args : ConnectionArgs) (es : List Event) (w : World)
    → Fit es w
    → Gives
        (λ secret v. (secret ≡ password_value host args.password_file args.password) × Fit es v)
        (password host args w)
unfolding password
password-Fit host args es w h =
    let (ws, f, p) = password_shape host args w in
    (
      password_value host args.password_file args.password,
      record w { warnings = ws; warned_mode = f },
      p,
      (refl, h),
    )

wrap_plain :
    (host : Host) (args : ConnectionArgs) (secure web : Bool) (es : List Event) (w : World)
    → secure ≡ false
    → web ≡ false
    → Fit es w
    → Gives (λ _ v. Fit es v) (wrap host args secure web w)
unfolding wrap
wrap_plain host args secure web es w s b h =
    subst (λ x. Gives (λ _ v. Fit es v) (wrap host args x web w)) (sym s)
      (subst (λ x. Gives (λ _ v. Fit es v) (wrap host args false x w)) (sym b) (tcp, w, refl, h))

connect_plain :
    (host : Host) (args : ConnectionArgs) (es : List Event) (w : World)
    → host.tcp_connect args.broker (port args) ≡ succeeded
    → host.set_nodelay ≡ none
    → args.tls ≡ false
    → args.websocket ≡ false
    → Fit es w
    → Gives (λ _ v. Fit es v) (Transport.connect host args w)
unfolding Transport.connect
connect_plain host args es w t n s b h =
    let u : World = warn_if_plaintext_password host args w in
    let v : World = record u { dials = u.dials + 1 } in
    attempted_then _ (host.tcp_connect args.broker (port args)) v _ t (
      unless_then _ host.set_nodelay v _ n
        (wrap_plain host args args.tls args.websocket es v s b (plaintext-Fit host args es w h)))

module _ (P : Protocol) (host : Host) (args : ConnectionArgs) where
  -- Nothing stands in the way of a plain TCP connection, the broker accepts it, and then `es` come.
  pub record CanConnect (es : List Event) (w : World) : Type 0 where
    pub max : ℕ
    pub given : Option Bytes
    pub last_will : Option Will
    pub ack : Connack
    pub named :
        not (Cli.clean_start args) && bytes_eq (client_id_for P host args.client_id) [] ≡ false
    pub sized : Cli.max_packet_size args ≡ inr max
    pub secret : password_value host args.password_file args.password ≡ inr given
    pub willing : Cli.will P args ≡ some last_will
    pub answers : host.tcp_connect args.broker (port args) ≡ succeeded
    pub no_delay : host.set_nodelay ≡ none
    pub no_tls : args.tls ≡ false
    pub no_websocket : args.websocket ≡ false
    pub smooth : (n : ℕ) → w.fault n ≡ none
    pub greeted : w.incoming ≡ arrived (connack ack) ∷ es
    pub accepted : ack.reason_code == P.success ≡ true

  named_then :
      {A : Type 0} (Q : A → World → Type 0) (id : Bytes) (w : World) (f : Action World A)
      → not (Cli.clean_start args) && bytes_eq id [] ≡ false
      → Gives Q (f w)
      → Gives Q (and_then (refuse_unnamed P args id w) λ _. f)
  unfolding refuse_unnamed
  named_then Q id w f e h = rw (refuse_unnamed, e) h

  greeted_then :
      (es : List Event) (ack : Connack) (version : ProtocolVersion) (v : World)
      → ack.reason_code == P.success ≡ true
      → Fit (arrived (connack ack) ∷ es) v
      → Gives (λ _ x. Fit es x) (and_then (read_packet v) (check_connack P version))
  unfolding read_packet read_from check_connack
  greeted_then es ack version v e h =
      subst (λ xs. Gives (λ _ x. Fit es x) (and_then (read_from xs v) (check_connack P version)))
        (sym h.0) (rw e (_, record v { incoming = es }, refl, (refl, h.1)))

  handshake-Fit :
      (es : List Event) (w : World) (can : CanConnect es w) (id : Bytes) (v : World)
      → Fit (arrived (connack can.ack) ∷ es) v
      → Gives (λ _ x. Fit es x) (handshake P host args id v)
  unfolding handshake
  handshake-Fit es w can id v h =
      let Q : Negotiated → World → Type 0 = λ _ x. Fit es x in
      lifted_then Q [] (Cli.max_packet_size args) can.max v _ can.sized (
        and_then-Gives _ Q (password host args v) _
          (password-Fit host args (arrived (connack can.ack) ∷ es) v h)
          (λ secret x k. lifted_then Q (password_error P) secret can.given x _ (k.0 ∙ can.secret) (
            expected_then Q (Cli.will P args) can.last_will x _ can.willing (
              written_then Q _ x _ (k.1.1 x.writes)
                (greeted_then es can.ack (Cli.version args) _ can.accepted k.1)))))

  pub connect_client-Fit :
      (es : List Event) (w : World)
      → CanConnect es w
      → Gives (λ _ x. Fit es x) (connect_client P host args w)
  unfolding connect_client
  connect_client-Fit es w can =
      let Q : Client → World → Type 0 = λ _ x. Fit es x in
      let id : Bytes = client_id_for P host args.client_id in
      let all : List Event = arrived (connack can.ack) ∷ es in
      named_then Q id w _ can.named (
        lifted_then Q [] (Cli.max_packet_size args) can.max w _ can.sized (
          and_then-Gives _ Q (password host args w) _
            (password-Fit host args all w (can.greeted, can.smooth))
            (λ secret x k.
              lifted_then Q (password_error P) secret can.given x _ (k.0 ∙ can.secret) (
                and_then-Gives (λ _ y. Fit all y) Q (Transport.connect host args x) _
                  (connect_plain host args all x can.answers can.no_delay can.no_tls
                    can.no_websocket k.1)
                  (λ _ y i.
                    and_then-Gives (λ _ z. Fit es z) Q (handshake P host args id y) _
                      (handshake-Fit es w can id y i) (λ _ z j. (_, z, refl, j)))))))
