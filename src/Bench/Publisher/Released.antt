-- ===== src/Bench/Publisher/Released.antt =====
-- What a publisher still writes at its end.
use mathlib.Core.List.{append-nil, append_assoc}
use pulsemq_cli.Base.{
  ℕ, Bool, true, false, List, [], ◌∷◌, ◌++◌, if◌then◌else◌, ◌⊎◌, inl, inr, ◌≡◌, refl, sym, ap, ◌∙◌,
  Bool-cases, Option-cases,
}
use pulsemq_cli.Mqtt.{Protocol, Packet, ReasonCode, disconnect, pubrec, puback, pubcomp}
use pulsemq_cli.Io.{World, done, and_then, write_packet}
use pulsemq_cli.Bench.Publisher.{
  Publisher, lookup, on_packet, complete_ack, drain_pubrels, write_then,
}
use pulsemq_cli.Bench.Publisher.Tail.{
  Lull, none_in_flight, ignoring, during, wait_loop, settle_down, wind_down,
}
use pulsemq_cli.Bench.Publisher.Writes.{
  Smooth, releases, releases_append, Wrote, write_then-Wrote, drain_loop-Wrote,
}

module _ (P : Protocol) (warmup_until : ℕ) where
  -- The identifiers that reads hand to the write side: those of PUBRECs that are no errors.
  abbrev pub handed : Lull → List ℕ
  handed [] = []
  handed ((now, pubrec a) ∷ reads) =
      (if P.is_error a.reason_code then [] else a.packet_id ∷ []) ++ handed reads
  handed ((now, p) ∷ reads) = handed reads

  abbrev pub handed_in : List Lull → List ℕ
  handed_in [] = []
  handed_in (lull ∷ lulls) = handed lull ++ handed_in lulls

  -- Reads do not write, and hand over identifiers in order.
  abbrev pub Handed : List ℕ → Publisher → Publisher → Type 0
  Handed ids s d =
      (d.stream ≡ s.stream)
      × (d.pubrels ≡ s.pubrels ++ ids)
      × (d.window_closed ≡ s.window_closed)
      × (d.closed ≡ s.closed)

  complete_ack-Handed :
      (now id : ℕ) (code : ReasonCode) (s : Publisher)
      → Handed [] s (complete_ack P warmup_until now id code s)
  unfolding complete_ack
  complete_ack-Handed now id code s = elim (Option-cases (lookup id s.in_flight)) [
    | inl e ↦ rw (complete_ack, e) (refl, sym (append-nil s.pubrels), refl, refl)
    | inr (t, e) ↦ rw (complete_ack, e) (refl, sym (append-nil s.pubrels), refl, refl)
  ]

  pubrec_by-Handed :
      (now id : ℕ) (code : ReasonCode) (is_error : Bool) (s : Publisher)
      → Handed ((if is_error then [] else id ∷ []) ++ []) s (
          if is_error
          then complete_ack P warmup_until now id code s
          else record s { pubrels = s.pubrels ++ (id ∷ []) })
  pubrec_by-Handed now id code true s = complete_ack-Handed now id code s
  pubrec_by-Handed now id code false s = (refl, refl, refl, refl)

  pub on_packet-Handed :
      (now : ℕ) (p : Packet) (s : Publisher)
      → Handed (handed ((now, p) ∷ [])) s (on_packet P warmup_until now p s)
  unfolding on_packet
  on_packet-Handed now (puback a) s = complete_ack-Handed now a.packet_id a.reason_code s
  on_packet-Handed now (pubrec a) s =
      pubrec_by-Handed now a.packet_id a.reason_code (P.is_error a.reason_code) s
  on_packet-Handed now (pubcomp a) s = complete_ack-Handed now a.packet_id a.reason_code s
  on_packet-Handed now p s = (refl, sym (append-nil s.pubrels), refl, refl)

  pub handed_cons :
      (now : ℕ) (p : Packet) (reads : Lull)
      → handed ((now, p) ∷ reads) ≡ handed ((now, p) ∷ []) ++ handed reads
  handed_cons now (pubrec a) reads = ap (λ l. l ++ handed reads) (sym (append-nil _))
  handed_cons now p reads = refl

  during-Handed :
      (reads : Lull) (s : Publisher) → Handed (handed reads) s (during P warmup_until reads s)
  unfolding during
  during-Handed [] s = (refl, sym (append-nil s.pubrels), refl, refl)
  during-Handed ((now, p) ∷ reads) s =
      let h = on_packet-Handed now p s in
      let k = during-Handed reads (on_packet P warmup_until now p s) in
      (
        k.0 ∙ h.0,
        k.1
            ∙ ap (λ l. l ++ handed reads) h.1
            ∙ append_assoc s.pubrels (handed ((now, p) ∷ [])) (handed reads)
            ∙ ap (◌++◌ s.pubrels) (sym (handed_cons now p reads)),
        k.2 ∙ h.2,
        k.3 ∙ h.3,
      )

  drained-Wrote :
      (s : Publisher)
      → Smooth s
      → Wrote P (releases P s.pubrels) [] s (ignoring P warmup_until (drain_pubrels P s))
  unfolding drain_pubrels ignoring
  drained-Wrote s h =
      let (d, e, sent, rels, held, open_, smooth) = drain_loop-Wrote P s.pubrels s h in
      (d, ap (ignoring P warmup_until) e, sent, rels, held, open_, smooth)

  -- The rounds took the lulls `taken`, and what is still owed for them is in the channel.
  abbrev Waited : List Lull → List Lull → Publisher → Publisher → Type 0
  Waited lulls taken s d =
      (d.stream.sent ++ releases P d.pubrels
        ≡ s.stream.sent ++ releases P (s.pubrels ++ handed_in taken))
      × (d.window_closed ≡ s.window_closed)
      × Smooth d
      × ((taken ≡ lulls) ⊎ (none_in_flight d.in_flight ≡ true))

  owed :
      (sent : List Packet) (xs ys zs : List ℕ)
      → (sent ++ releases P xs) ++ releases P (([] ++ ys) ++ zs)
        ≡ sent ++ releases P (xs ++ (ys ++ zs))
  owed sent xs ys zs =
      append_assoc sent (releases P xs) (releases P (ys ++ zs))
      ∙ ap (◌++◌ sent) (sym (releases_append P xs (ys ++ zs)))

  wait_loop-Waited :
      (lulls : List Lull) (s : Publisher)
      → Smooth s
      → (taken : List Lull) × (later : List Lull) × (lulls ≡ taken ++ later)
        × (d : Publisher) × (wait_loop P warmup_until lulls s ≡ done tt d)
        × Waited lulls taken s d
  unfolding wait_loop
  wait_loop-Waited [] s h = (
    [],
    [],
    refl,
    s,
    refl,
    (ap (λ l. s.stream.sent ++ releases P l) (sym (append-nil s.pubrels)), refl, h, inl refl),
  )
  wait_loop-Waited (lull ∷ lulls) s h = elim (Bool-cases (none_in_flight s.in_flight)) [
    | inl e ↦ (
      [],
      lull ∷ lulls,
      refl,
      s,
      rw e refl,
      (ap (λ l. s.stream.sent ++ releases P l) (sym (append-nil s.pubrels)), refl, h, inr e),
    )
    | inr e ↦
        let (b, x, sent, rels, held, open_, smooth) = drained-Wrote s h in
        let c : Publisher = during P warmup_until lull b in
        let k = during-Handed lull b in
        let c_smooth : Smooth c = λ n. ap (λ (w : World). w.fault n) k.0 ∙ smooth n in
        let (taken, later, split, d, run, w) = wait_loop-Waited lulls c c_smooth in
        (
          lull ∷ taken,
          later,
          ap (◌∷◌ lull) split,
          d,
          rw e (
              ap
                (λ o.
                  and_then o λ _ s'. wait_loop P warmup_until lulls (during P warmup_until lull s'))
                x
              ∙ run),
          (
            w.0
                ∙ ap (λ (l : List Packet). l ++ releases P (c.pubrels ++ handed_in taken))
                    (ap (λ (v : World). v.sent) k.0 ∙ sent)
                ∙ ap
                    (λ l.
                      (s.stream.sent ++ releases P s.pubrels) ++ releases P (l ++ handed_in taken))
                    (k.1 ∙ ap (λ l. l ++ handed lull) rels)
                ∙ owed s.stream.sent s.pubrels (handed lull) (handed_in taken),
            w.1 ∙ k.2 ∙ open_,
            w.2,
            elim w.3 [ inl q ↦ inl (ap (◌∷◌ lull) q) | inr q ↦ inr q ],
          ),
        )
  ]

  -- At the end of a publisher whose window is open and none of whose writes fails, every PUBREC
  -- that was handed over before or during the wait, up to its last sleep, is answered by one
  -- PUBREL, in order, nothing but the DISCONNECT is written after them, and the wait ends only when
  -- its time is over or nothing is in flight.
  pub wind_down-Released :
      (lulls : List Lull) (s : Publisher)
      → Smooth s
      → s.window_closed ≡ false
      → (taken : List Lull) × (later : List Lull) × (lulls ≡ taken ++ later)
        × (d : Publisher) × (wind_down P warmup_until lulls s ≡ done tt d)
        × (d.stream.sent
            ≡ s.stream.sent
              ++ (releases P (s.pubrels ++ handed_in taken) ++ (disconnect P.success ∷ [])))
        × (d.pubrels ≡ [])
        × ((taken ≡ lulls) ⊎ (none_in_flight d.in_flight ≡ true))
  unfolding wind_down settle_down ignoring
  wind_down-Released lulls s h open_ =
      let (taken, later, split, b, run, waited) = wait_loop-Waited lulls s h in
      let (paid, same, smooth, why) = waited in
      let (c, x, sent, rels, held, still, calm) = drained-Wrote b smooth in
      let (d, y, closed, kept, flying, last, quiet) =
        write_then-Wrote P (disconnect P.success) c calm in
      let settled : settle_down P warmup_until lulls s ≡ done tt c =
        ap
          (λ b.
            if b
            then done tt s
            else and_then (wait_loop P warmup_until lulls s)
                λ _ s'. ignoring P warmup_until (drain_pubrels P s'))
          open_
        ∙ ap (λ o. and_then o λ _ s'. ignoring P warmup_until (drain_pubrels P s')) run
        ∙ x in
      (
        taken,
        later,
        split,
        d,
        ap
              (λ o. and_then o λ _ s'.
                ignoring P warmup_until
                  (write_then P s' (write_packet (disconnect P.success) s'.stream)))
              settled
            ∙ ap (ignoring P warmup_until) y,
        closed
            ∙ ap (λ l. l ++ (disconnect P.success ∷ [])) (sent ∙ paid)
            ∙ append_assoc s.stream.sent (releases P (s.pubrels ++ handed_in taken))
                (disconnect P.success ∷ []),
        kept ∙ rels,
        elim why [ inl q ↦ inl q | inr q ↦ inr (ap none_in_flight (flying ∙ held) ∙ q) ],
      )
