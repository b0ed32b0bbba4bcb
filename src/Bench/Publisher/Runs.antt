-- ===== src/Bench/Publisher/Runs.antt =====
-- Consecutive packet identifiers in flight.
use pulsemq_cli.Base.{
  ℕ, zero, suc, ◌≤◌, ◌<◌, true, false, Option, none, some, [], ◌∷◌, length, ◌==◌, ◌≡◌, ◌≢◌, refl,
  sym, ap, ◌∙◌, arith,
}
use pulsemq_cli.Client.{step_packet_id}
use pulsemq_cli.Client.PacketId.{allocate, allocate-injective}
use pulsemq_cli.Bench.Publisher.{InFlight, lookup, remove}

-- The message that has been in flight longest.
abbrev pub oldest : InFlight → Option ℕ
oldest [] = none
oldest ((i, t) ∷ []) = some i
oldest ((i, t) ∷ e ∷ rest) = oldest (e ∷ rest)

-- `n` consecutive identifiers after `a`, newest first.
abbrev pub IsRun : ℕ → ℕ → InFlight → Type 0
IsRun a zero [] = Unit {0}
IsRun a zero (e ∷ m) = ⊥
IsRun a (suc n) [] = ⊥
IsRun a (suc n) ((i, t) ∷ m) = (i ≡ allocate (suc n) a) × IsRun a n m

pub step-allocate : (n a : ℕ) → step_packet_id (allocate n a) ≡ allocate (suc n) a
step-allocate zero a = refl
step-allocate (suc n) a = step-allocate n (step_packet_id a)

pub remove_fresh :
    (n j a : ℕ) (m : InFlight) → n ≤ j → j < 65535 → IsRun a n m → remove (allocate (suc j) a) m ≡ m
remove_fresh zero j a [] l b r = refl
remove_fresh zero j a (e ∷ m) l b r = absurd r
remove_fresh (suc n) j a [] l b r = absurd r
remove_fresh (suc n) j a ((i, t) ∷ m) l b r =
    let other : i ≢ allocate (suc j) a =
      λ e. allocate-injective a n j (omega arith) (omega arith) (sym r.0 ∙ e) in
    let rest = remove_fresh n j a m (omega arith) b r.1 in ground (arith, other, rest)

pub lookup_fresh :
    (n j a : ℕ) (m : InFlight)
    → n ≤ j
    → j < 65535
    → IsRun a n m
    → lookup (allocate (suc j) a) m ≡ none
lookup_fresh zero j a [] l b r = refl
lookup_fresh zero j a (e ∷ m) l b r = absurd r
lookup_fresh (suc n) j a [] l b r = absurd r
lookup_fresh (suc n) j a ((i, t) ∷ m) l b r =
    let other : i ≢ allocate (suc j) a =
      λ e. allocate-injective a n j (omega arith) (omega arith) (sym r.0 ∙ e) in
    ground (arith, other, lookup_fresh n j a m (omega arith) b r.1)

pub remove-IsRun :
    (n a : ℕ) (m : InFlight)
    → n < 65535
    → IsRun a (suc n) m
    → IsRun (step_packet_id a) n (remove (allocate 1 a) m)
      × ((t : ℕ) × (lookup (allocate 1 a) m ≡ some t))
      × (oldest m ≡ some (allocate 1 a))
remove-IsRun n a [] b r = absurd r
remove-IsRun zero a ((i, t) ∷ []) b r =
    let same : (allocate 1 a == i) ≡ true = ground (arith, r.0) in
    rw same (tt, (t, refl), ap some r.0)
remove-IsRun zero a ((i, t) ∷ e ∷ m) b r = absurd r.1
remove-IsRun (suc n) a ((i, t) ∷ []) b r = absurd r.1
remove-IsRun (suc n) a ((i, t) ∷ e ∷ m) b r =
    let (run, found, last) = remove-IsRun n a (e ∷ m) (omega arith) r.1 in
    let other : allocate 1 a ≢ i =
      λ h. allocate-injective a 0 (suc n) (omega arith) (omega arith) (h ∙ r.0) in
    let differ : (allocate 1 a == i) ≡ false = ground (arith, other) in
    rw differ ((r.0, run), found, last)

pub length-IsRun : (n a : ℕ) (m : InFlight) → IsRun a n m → length m ≡ n
length-IsRun zero a [] r = refl
length-IsRun zero a (e ∷ m) r = absurd r
length-IsRun (suc n) a [] r = absurd r
length-IsRun (suc n) a ((i, t) ∷ m) r = ap suc (length-IsRun n a m r.1)
