-- ===== src/Bench/Payload.antt =====
-- The measurement header in every benchmark payload (src/bench/payload.rs).
pub mod Laws
use pulsemq_cli.Base.{
  ℕ, zero, suc, ◌+◌, ◌-◌, ◌*◌, ◌/◌, ◌%◌, ◌^◌, max, Option, none, some, List, [], ◌∷◌, ◌++◌, Bytes,
  length, take, drop, replicate, ltb, if◌then◌else◌,
}

abbrev pub header_len : ℕ
header_len = 16

pub record Header : Type 0 where
  pub elapsed_ns : ℕ  -- u64
  pub publisher : ℕ  -- u32
  pub seq : ℕ  -- u32

-- `to_be_bytes` of a word of `n` bytes: most significant first.
pub to_be_bytes : ℕ → ℕ → Bytes
to_be_bytes zero v = []
to_be_bytes (suc n) v = (v / 256 ^ n % 256) ∷ to_be_bytes n v

from_be_loop : ℕ → Bytes → ℕ
from_be_loop acc [] = acc
from_be_loop acc (b ∷ bs) = from_be_loop (acc * 256 + b) bs

pub from_be_bytes : Bytes → ℕ
unfolding from_be_loop
from_be_bytes = from_be_loop 0

-- `buf[from..from + src.len()].copy_from_slice(src)`
pub copy_at : ℕ → Bytes → Bytes → Bytes
copy_at from src buf = take from buf ++ (src ++ drop (from + length src) buf)

pub build : ℕ → Header → Bytes
build size header =
    let buf = replicate (max size header_len) 0 in
    let buf1 = copy_at 0 (to_be_bytes 8 header.elapsed_ns) buf in
    let buf2 = copy_at 8 (to_be_bytes 4 header.publisher) buf1 in
    copy_at 12 (to_be_bytes 4 header.seq) buf2

-- `payload[from..to]`
abbrev pub slice : ℕ → ℕ → Bytes → Bytes
slice from to payload = take (to - from) (drop from payload)

pub decode : Bytes → Option Header
decode payload =
    if ltb (length payload) header_len
    then none
    else some (record {
      elapsed_ns = from_be_bytes (slice 0 8 payload);
      publisher = from_be_bytes (slice 8 12 payload);
      seq = from_be_bytes (slice 12 16 payload);
    })
