-- ===== src/Client/Connected.antt =====
-- A client that has connected, and a session of it.
use pulsemq_cli.Base.{◌+◌, not, ◌&&◌, [], bytes_eq, inl, inr, ◌≡◌, refl, ap, subst, Bool-cases}
use pulsemq_cli.Mqtt.{Protocol, IsLawful}
use pulsemq_cli.Cli
use pulsemq_cli.Cli.{ConnectionArgs, IsParsed}
use pulsemq_cli.Host.{Host}
use pulsemq_cli.Password.{password_value}
use pulsemq_cli.Password.Laws.{password_shape}
use pulsemq_cli.Io.{World, Outcome, done, failed, waiting, panicked, stuck, Action}
use pulsemq_cli.Io.Laws.{Ensures, and_then-Ensures, weaken-Ensures}
use pulsemq_cli.Transport
use pulsemq_cli.Transport.Laws.{Dialled, connect-Dialled, transport_of}
use pulsemq_cli.Client.{
  Client, Negotiated, connect_client, client_id_for, refuse_unnamed, handshake, with_client, leave,
}
use pulsemq_cli.Client.Dial.{Sum-cases, Shaken, handshake-Shaken}

module _ (P : Protocol) (host : Host) (args : ConnectionArgs) where
  -- One connection was made, over which CONNECT and CONNACK were exchanged; the client's count of
  -- identifiers is at its start.
  abbrev pub Connected : World → Client → World → Type 0
  Connected w c w' =
      (v : World) × (n : Negotiated) × Shaken P host args (client_id_for P host args.client_id) v n
        w'
      × (v.sent ≡ w.sent)
      × (v.incoming ≡ w.incoming)
      × (v.printed ≡ w.printed)
      × (v.dials ≡ w.dials + 1)
      × (c.next_packet_id ≡ 0)
      × (c.stream ≡ w')

  pub connect_client-Connected :
      IsLawful P
      → IsParsed args
      → (w : World) → Ensures (Connected w) (λ _. Unit) (connect_client P host args w)
  unfolding connect_client refuse_unnamed
  connect_client-Connected L h w =
      let id = client_id_for P host args.client_id in
      elim (Bool-cases (not (Cli.clean_start args) && bytes_eq id [])) [
        | inl b ↦ rw (b, connect_client) tt
        | inr b ↦ elim (Sum-cases (Cli.max_packet_size args)) [
          | inl (e, m) ↦ rw (b, connect_client, m) tt
          | inr (max, m) ↦
              let (ws, f, p) = password_shape host args w in
              let u : World = record w { warnings = ws; warned_mode = f } in
              elim (Sum-cases (password_value host args.password_file args.password)) [
                | inl (e, v) ↦ rw (b, connect_client, m, p, v) tt
                | inr (given, v) ↦
                    rw (b, connect_client, m, p, v)
                      (and_then-Ensures
                        (λ s x. (s ≡ transport_of args.tls args.websocket) × Dialled u x)
                        (λ _. Unit) _ (Transport.connect host args u) _
                        (weaken-Ensures _ _ _ (λ _. Unit) (Transport.connect host args u)
                          (connect-Dialled host args u) (λ s x d. d) (λ x y. tt))
                        (λ s x d.
                          and_then-Ensures (Shaken P host args id x) (λ _. Unit) _
                            (handshake P host args id x) _ (handshake-Shaken P host args L h id x)
                            (λ n y k. (
                              x,
                              n,
                              k,
                              ap (λ (t : World). t.sent) d.1,
                              ap (λ (t : World). t.incoming) d.1,
                              ap (λ (t : World). t.printed) d.1,
                              ap (λ (t : World). t.dials) d.1,
                              refl,
                              refl,
                            ))))
              ]
        ]
      ]

leave-Ensures :
    {A : Type 0} (Q : A → Client → Type 0) (R : A → World → Type 0) (o : Outcome Client A)
    → Ensures Q (λ _. Unit) o
    → ((a : A) (d : Client) → Q a d → R a d.stream)
    → Ensures R (λ _. Unit) (leave o)
unfolding leave
leave-Ensures Q R (done a c) h k = k a c h
leave-Ensures Q R (failed e c) h k = tt
leave-Ensures Q R (waiting c) h k = tt
leave-Ensures Q R panicked h k = h
leave-Ensures Q R stuck h k = h

-- What a session ensures of the client's stream.
pub with_client-Ensures :
    {A : Type 0} (Q : A → Client → Type 0) (R : A → World → Type 0) (m : Action Client A)
    (c : Client) (w : World)
    → c.stream ≡ w
    → Ensures Q (λ _. Unit) (m c)
    → ((a : A) (d : Client) → Q a d → R a d.stream)
    → Ensures R (λ _. Unit) (with_client m c w)
unfolding with_client
with_client-Ensures Q R m c w e h k =
    subst (λ x. Ensures R (λ _. Unit) (leave (m (record c { stream = x })))) e
      (leave-Ensures Q R (m c) h k)
