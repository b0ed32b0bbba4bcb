-- ===== src/Subscribe/Serve.antt =====
-- What a loop that receives, prints and answers keeps in balance, packet by packet.
use mathlib.Core.List.{append-nil, append_assoc}
use pulsemq_cli.Base.{
  ℕ, Bool, List, [], ◌∷◌, ◌++◌, Bytes, if◌then◌else◌, ◌==◌, ◌≡◌, refl, sym, ap, ap₂, subst, ◌∙◌,
}
use pulsemq_cli.Mqtt.{
  Packet, Publish, puback, pubrec, pubrel, pubcomp, suback, disconnect, publish, connect, connack,
  pingreq, pingresp, other, subscribe,
}
use pulsemq_cli.Io.{Event}
use pulsemq_cli.Io.Laws.{packets, replies}
use pulsemq_cli.Client.{Client}
use pulsemq_cli.Client.Laws.{Arrived, Idle, ping}
use pulsemq_cli.Subscribe.Output.{print_message}
use pulsemq_cli.Subscribe.{print_to_stdout}
use pulsemq_cli.Subscribe.Laws.{Put}

-- The messages among some packets.
abbrev pub messages : List Packet → List Publish
messages [] = []
messages (publish m ∷ ps) = m ∷ messages ps
messages (connect x ∷ ps) = messages ps
messages (connack x ∷ ps) = messages ps
messages (puback x ∷ ps) = messages ps
messages (pubrec x ∷ ps) = messages ps
messages (pubrel x ∷ ps) = messages ps
messages (pubcomp x ∷ ps) = messages ps
messages (subscribe x ∷ ps) = messages ps
messages (suback x ∷ ps) = messages ps
messages (pingreq ∷ ps) = messages ps
messages (pingresp ∷ ps) = messages ps
messages (disconnect x ∷ ps) = messages ps
messages (other x ∷ ps) = messages ps

abbrev pub delivered : Client → List Publish
delivered c = messages (packets c.stream.incoming)

-- Everything that is printed for some messages.
abbrev pub shown : Bool → Bool → List Publish → Bytes
shown show_topic to_terminal [] = []
shown show_topic to_terminal (m ∷ ms) =
    print_message m show_topic to_terminal ++ shown show_topic to_terminal ms

-- `reply p` is what a loop answers a packet `p` of the broker with.
module _ (reply : Packet → List Packet) (show_topic : Bool) where
  -- From `c` to `d` the messages that were taken off have been printed, in order, and every packet
  -- and every run of the timer answered, in order, each once.
  abbrev pub Served : Client → Client → Type 0
  Served c d =
      (d.stream.printed ++ shown show_topic c.stream.to_terminal (delivered d)
        ≡ c.stream.printed ++ shown show_topic c.stream.to_terminal (delivered c))
      × (d.stream.sent ++ replies reply (ping c) d.stream.incoming
          ≡ c.stream.sent ++ replies reply (ping c) c.stream.incoming)
      × (d.keep_alive ≡ c.keep_alive)
      × (d.stream.to_terminal ≡ c.stream.to_terminal)

  -- After a packet has been handled.
  abbrev pub Handled : Packet → Client → Client → Type 0
  Handled p c d =
      (d.stream.incoming ≡ c.stream.incoming)
      × (d.stream.sent ≡ c.stream.sent ++ reply p)
      × (d.stream.printed
          ≡ c.stream.printed ++ shown show_topic c.stream.to_terminal (messages (p ∷ [])))
      × (d.keep_alive ≡ c.keep_alive)
      × (d.stream.to_terminal ≡ c.stream.to_terminal)

  pub Handled-Put :
      (p : Packet) (c d : Client) → messages (p ∷ []) ≡ [] → Put (reply p) c d → Handled p c d
  Handled-Put p c d n put = (
    ap (λ (k : Client). k.stream.incoming) put,
    ap (λ (k : Client). k.stream.sent) put,
    rw (n, append-nil) (ap (λ (k : Client). k.stream.printed) put),
    ap (λ (k : Client). k.keep_alive) put,
    ap (λ (k : Client). k.stream.to_terminal) put,
  )

  pub Handled-nothing :
      (p : Packet) (c : Client) → messages (p ∷ []) ≡ [] → reply p ≡ [] → Handled p c c
  Handled-nothing p c n r = Handled-Put p c c n (rw (r, append-nil))

  pub Handled-message :
      (m : Publish) (c d : Client)
      → Put (reply (publish m)) c d
      → Handled (publish m) c (print_to_stdout m show_topic d)
  Handled-message m c d put = (
    ap (λ (k : Client). k.stream.incoming) put,
    ap (λ (k : Client). k.stream.sent) put,
    rw append-nil (
        ap (λ (k : Client). k.stream.printed ++ print_message m show_topic k.stream.to_terminal)
          put),
    ap (λ (k : Client). k.keep_alive) put,
    ap (λ (k : Client). k.stream.to_terminal) put,
  )

  messages-cons :
      (p : Packet) (ps : List Packet) → messages (p ∷ ps) ≡ messages (p ∷ []) ++ messages ps
  messages-cons (publish m) ps = refl
  messages-cons p ps = refl

  shown-append :
      (t : Bool) (xs ys : List Publish)
      → shown show_topic t (xs ++ ys) ≡ shown show_topic t xs ++ shown show_topic t ys
  shown-append t [] ys = refl
  shown-append t (m ∷ ms) ys =
      ap (◌++◌ (print_message m show_topic t)) (shown-append t ms ys)
      ∙ sym (
          append_assoc (print_message m show_topic t) (shown show_topic t ms)
            (shown show_topic t ys))

  -- One packet, received and handled.
  module _ (c b a d : Client) (p : Packet) (s : Served c b) (r : Arrived b p a)
      (h : Handled p a d) where
    pub delivered_split : delivered b ≡ messages (p ∷ []) ++ delivered d
    delivered_split =
        ap messages r.2
        ∙ messages-cons p (packets a.stream.incoming)
        ∙ ap (λ (es : List Event). messages (p ∷ []) ++ messages (packets es)) (sym h.0)

    step_terminal : a.stream.to_terminal ≡ c.stream.to_terminal
    step_terminal = ap (λ (k : Client). k.stream.to_terminal) r.0 ∙ s.3

    step_printed :
        d.stream.printed
        ≡ b.stream.printed ++ shown show_topic c.stream.to_terminal (messages (p ∷ []))
    step_printed =
        h.2
        ∙ ap (λ (t : Bool). a.stream.printed ++ shown show_topic t (messages (p ∷ [])))
            step_terminal
        ∙ ap
            (λ (k : Client).
              k.stream.printed ++ shown show_topic c.stream.to_terminal (messages (p ∷ [])))
            r.0

    step_ping : ping b ≡ ping c
    step_ping = ap (λ (k : ℕ). if k == 0 then [] else pingreq ∷ []) s.2

    step_sent :
        d.stream.sent ++ replies reply (ping c) d.stream.incoming
        ≡ b.stream.sent ++ replies reply (ping c) b.stream.incoming
    step_sent =
        ap₂ (λ (x : List Packet) (es : List Event). x ++ replies reply (ping c) es) h.1 h.0
        ∙ append_assoc a.stream.sent (reply p) _
        ∙ subst
            (λ t.
              a.stream.sent ++ (reply p ++ replies reply t a.stream.incoming)
              ≡ b.stream.sent ++ replies reply t b.stream.incoming)
            step_ping (r.3 reply)

    pub Served-step : Served c d
    Served-step = (
      ap (λ (x : Bytes). x ++ shown show_topic c.stream.to_terminal (delivered d)) step_printed
          ∙ append_assoc b.stream.printed _ _
          ∙ ap (◌++◌ b.stream.printed) (
              sym (shown-append c.stream.to_terminal (messages (p ∷ [])) (delivered d))
              ∙ ap (shown show_topic c.stream.to_terminal) (sym delivered_split))
          ∙ s.0,
      step_sent ∙ s.1,
      h.3 ∙ ap (λ (k : Client). k.keep_alive) r.0 ∙ s.2,
      h.4 ∙ step_terminal,
    )

  -- A silence is answered by pings alone.
  module _ (c b a : Client) (s : Served c b) (i : Idle b a) where
    none_left : delivered b ≡ []
    none_left = ap messages i.1

    none_after : delivered a ≡ []
    none_after = ap (λ (es : List Event). messages (packets es)) i.2

    silent_ping : ping b ≡ ping c
    silent_ping = ap (λ (n : ℕ). if n == 0 then [] else pingreq ∷ []) s.2

    pub Idle-Served : Served c a
    Idle-Served = (
      ap₂ (λ (x : Bytes) (ms : List Publish). x ++ shown show_topic c.stream.to_terminal ms)
            (ap (λ (n : Client). n.stream.printed) i.0) (none_after ∙ sym none_left)
          ∙ s.0,
      ap (λ (es : List Event). a.stream.sent ++ replies reply (ping c) es) i.2
          ∙ append-nil a.stream.sent
          ∙ i.3 reply
          ∙ ap (λ (t : List Packet). b.stream.sent ++ replies reply t b.stream.incoming) silent_ping
          ∙ s.1,
      ap (λ (n : Client). n.keep_alive) i.0 ∙ s.2,
      ap (λ (n : Client). n.stream.to_terminal) i.0 ∙ s.3,
    )
