-- ===== src/Client/PacketId.antt =====
-- Packet identifiers: never 0, within a u16, and distinct in every window that fits a u16.
use pulsemq_cli.Base.{ℕ, zero, suc, ◌+◌, ◌%◌, ◌≤◌, ◌<◌, ◌≡◌, ◌≢◌, arith}
use pulsemq_cli.Client.{step_packet_id}

-- Identifiers are 1..=65535 (2.2.1).
pub step_packet_id_bounds : (n : ℕ) → (1 ≤ step_packet_id n) × (step_packet_id n ≤ 65535)
unfolding step_packet_id
step_packet_id_bounds n = ground arith

-- The identifier that is allocated `k` calls later.
abbrev pub allocate : ℕ → ℕ → ℕ
allocate zero n = n
allocate (suc k) n = allocate k (step_packet_id n)

allocate-eq : (k n : ℕ) → 1 ≤ n → n ≤ 65535 → allocate k n ≡ (n + k + 65534) % 65535 + 1
unfolding step_packet_id
allocate-eq zero n h g = omega arith
allocate-eq (suc k) n h g =
    let (lo, hi) = step_packet_id_bounds n in ground (arith, allocate-eq k (step_packet_id n) lo hi)

allocate_from_step : (k n : ℕ) → allocate (suc k) n ≡ (step_packet_id n + k + 65534) % 65535 + 1
allocate_from_step k n =
    let (lo, hi) = step_packet_id_bounds n in allocate-eq k (step_packet_id n) lo hi

-- Any 65535 consecutive packet identifiers are distinct, wherever the count stands and wraps.
pub allocate-injective :
    (n i j : ℕ) → i < j → j < i + 65535 → allocate (suc i) n ≢ allocate (suc j) n
allocate-injective n i j h k e = omega (arith, allocate_from_step i n, allocate_from_step j n)

-- And no more than that: after 65535 allocations the same identifiers come again.
pub allocate_period : (n i : ℕ) → allocate (suc (i + 65535)) n ≡ allocate (suc i) n
allocate_period n i = omega (arith, allocate_from_step i n, allocate_from_step (i + 65535) n)
