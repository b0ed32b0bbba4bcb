-- ===== src/Bench/Publisher/Writes.antt =====
-- Writes of a publisher, none of which fails.
use mathlib.Core.List.{append-nil, append_assoc, map-append}
use pulsemq_cli.Base.{ℕ, ◌+◌, none, List, [], ◌∷◌, ◌++◌, map, ◌≡◌, refl, sym, ap, ◌∙◌}
use pulsemq_cli.Mqtt.{Protocol, Packet, pubrel}
use pulsemq_cli.Io.{World, Outcome, done, and_then, write_packet}
use pulsemq_cli.Subscribe.{pub_ack}
use pulsemq_cli.Bench.Publisher.{Publisher, drain_loop, write_then}
use pulsemq_cli.Client.Calm.{write_packet_calm}

abbrev pub Smooth : Publisher → Type 0
Smooth s = (n : ℕ) → s.stream.fault n ≡ none

module _ (P : Protocol) where
  abbrev pub releases : List ℕ → List Packet
  releases ids = map (λ id. pubrel (pub_ack P id)) ids

  pub releases_append : (xs ys : List ℕ) → releases (xs ++ ys) ≡ releases xs ++ releases ys
  releases_append xs ys = map-append (λ id. pubrel (pub_ack P id)) xs ys

  -- Done, with `ps` written, and with the identifiers `ids` in the channel.
  abbrev pub Wrote : List Packet → List ℕ → Publisher → Outcome Publisher (Unit {0}) → Type 0
  Wrote ps ids s o =
      (d : Publisher) × (o ≡ done tt d)
      × (d.stream.sent ≡ s.stream.sent ++ ps)
      × (d.pubrels ≡ ids)
      × (d.in_flight ≡ s.in_flight)
      × (d.window_closed ≡ s.window_closed)
      × Smooth d

  pub write_then-Wrote :
      (p : Packet) (s : Publisher)
      → Smooth s
      → Wrote (p ∷ []) s.pubrels s (write_then P s (write_packet p s.stream))
  unfolding write_then
  write_then-Wrote p s h =
      let w : World = record s.stream {
        sent = s.stream.sent ++ (p ∷ []);
        writes = s.stream.writes + 1;
      } in
      (
        record s { stream = w },
        ap (write_then P s) (write_packet_calm p s.stream (h s.stream.writes)),
        refl,
        refl,
        refl,
        refl,
        h,
      )

  pub drain_loop-Wrote :
      (ids : List ℕ) (s : Publisher) → Smooth s → Wrote (releases ids) [] s (drain_loop P ids s)
  unfolding drain_loop
  drain_loop-Wrote [] s h =
      (record s { pubrels = [] }, refl, sym (append-nil s.stream.sent), refl, refl, refl, h)
  drain_loop-Wrote (id ∷ ids) s h =
      let (b, e, sent, rels, held, open_, smooth) =
        write_then-Wrote (pubrel (pub_ack P id)) (record s { pubrels = ids }) h in
      let (d, e', sent', rels', held', open', smooth') = drain_loop-Wrote ids b smooth in
      (
        d,
        ap (λ o. and_then o λ _. drain_loop P ids) e ∙ e',
        sent'
            ∙ ap (λ l. l ++ releases ids) sent
            ∙ append_assoc s.stream.sent (pubrel (pub_ack P id) ∷ []) (releases ids),
        rels',
        held' ∙ held,
        open' ∙ open_,
        smooth',
      )
