-- ===== src/Client/Elapsed.antt =====
-- A timer that runs out is nothing to a plain receive.
use pulsemq_cli.Base.{List, [], ◌∷◌, ◌≡◌, refl, sym, ap, ◌∙◌}
use pulsemq_cli.Io.{
  Event, arrived, closed, broken, elapsed, World, Outcome, done, failed, waiting, panicked, stuck,
  ReadOutcome, read_packet, read_from, and_then,
}
use pulsemq_cli.Client.{Client, expect_packet, on_stream_done, recv, with_incoming}

read_from_elsewhere :
    (es xs : List Event) (w : World) → read_from es (record w { incoming = xs }) ≡ read_from es w
unfolding read_from
read_from_elsewhere [] xs w = refl
read_from_elsewhere (arrived p ∷ es) xs w = refl
read_from_elsewhere (closed ∷ es) xs w = refl
read_from_elsewhere (broken e ∷ es) xs w = refl
read_from_elsewhere (elapsed ∷ es) xs w = read_from_elsewhere es xs w

on_stream_elsewhere :
    {A : Type 0} (c : Client) (v : World) (o : Outcome World A)
    → on_stream_done (record c { stream = v }) o ≡ on_stream_done c o
unfolding on_stream_done
on_stream_elsewhere c v (done a w) = refl
on_stream_elsewhere c v (failed e w) = refl
on_stream_elsewhere c v (waiting w) = refl
on_stream_elsewhere c v panicked = refl
on_stream_elsewhere c v stuck = refl

-- A timer that runs out is nothing to `recv`.
pub recv_elapsed :
    (es : List Event) (c : Client)
    → recv (with_incoming (elapsed ∷ es) c) ≡ recv (with_incoming es c)
unfolding recv
recv_elapsed es c =
    let w = record c.stream { incoming = es } in
    let v : World = record c.stream { incoming = elapsed ∷ es } in
    let m : Outcome World ReadOutcome = read_packet w in
    ap (λ o. and_then o expect_packet)
      (ap (on_stream_done (record c { stream = v })) (read_from_elsewhere es (elapsed ∷ es) w)
        ∙ on_stream_elsewhere c v m
        ∙ sym (on_stream_elsewhere c w m))
