-- ===== src/Bench/Payload/Laws.antt =====
-- Round trip and size of the measurement header.
use pulsemq_cli.Base.{
  ℕ, zero, suc, ◌+◌, ◌-◌, ◌*◌, ◌^◌, ◌≤◌, ◌<◌, max, ◌≡◌, refl, ◌↔◌, none, some, [], ◌∷◌, ◌++◌, Bytes,
  IsByte, All, length, take, drop, replicate, length-replicate, length-take-le, arith,
}
use native.Mathlib.Nat.{add-zero, pow-suc, pow-le-pow_right}
use pulsemq_cli.Bench.Payload.{
  Header, header_len, to_be_bytes, from_be_bytes, from_be_loop, copy_at, build, slice, decode,
}

pub record IsHeader (h : Header) : Type 0 where
  pub elapsed_fits : h.elapsed_ns < 2 ^ 64
  pub publisher_fits : h.publisher < 2 ^ 32
  pub seq_fits : h.seq < 2 ^ 32

-- What `build` writes: the three words, then zeros.
build-eq :
    (size : ℕ) (h : Header)
    → build size h
      ≡ to_be_bytes 8 h.elapsed_ns
        ++ (to_be_bytes 4 h.publisher ++ (to_be_bytes 4 h.seq ++ replicate (size - header_len) 0))
unfolding build copy_at to_be_bytes
build-eq size h =
    let e : max size 16
        ≡ suc (
            suc (
              suc (
                suc (
                  suc (
                    suc
                      (suc (suc (suc (suc (suc (suc (suc (suc (suc (suc (size - 16)))))))))))))))) =
      omega arith in
    rw e

word8 : (v : ℕ) → v < 2 ^ 64 → from_be_bytes (to_be_bytes 8 v) ≡ v
unfolding from_be_bytes to_be_bytes
word8 v h = omega arith

word4 : (v : ℕ) → v < 2 ^ 32 → from_be_bytes (to_be_bytes 4 v) ≡ v
unfolding from_be_bytes to_be_bytes
word4 v h = omega arith

-- A header whose fields fit their widths is read back from any payload built with it, whatever the
-- size asked for.
pub decode-build : (size : ℕ) (h : Header) → IsHeader h → decode (build size h) ≡ some h
unfolding decode to_be_bytes
decode-build size h v = rw (build-eq size h) (
    ground (
      arith,
      word8 h.elapsed_ns v.elapsed_fits,
      word4 h.publisher v.publisher_fits,
      word4 h.seq v.seq_fits,
    ))

-- A payload has the size asked for but never less than the header, and after the header it is
-- filled with zeros.
build_shape :
    (size : ℕ) (h : Header)
    → (length (build size h) ≡ max size header_len)
      × (drop header_len (build size h) ≡ replicate (size - header_len) 0)
unfolding to_be_bytes
build_shape size h =
    rw (build-eq size h) (omega (arith, length-replicate (size - 16) (◌+◌ 0 0)), refl)

decode-some :
    (payload : Bytes) → header_len ≤ length payload → (h : Header) × (decode payload ≡ some h)
unfolding decode
decode-some payload h = (
  record {
    elapsed_ns = from_be_bytes (slice 0 8 payload);
    publisher = from_be_bytes (slice 8 12 payload);
    seq = from_be_bytes (slice 12 16 payload);
  },
  ground arith,
)

-- Exactly the payloads shorter than a header carry none.
decode-eq-none : (payload : Bytes) → (decode payload ≡ none) ↔ (length payload < header_len)
unfolding decode
decode-eq-none payload = ground arith

from_be_loop-lt :
    (bs : Bytes) (acc k : ℕ)
    → All IsByte bs
    → acc < 256 ^ k
    → from_be_loop acc bs < 256 ^ (k + length bs)
unfolding from_be_loop
from_be_loop-lt [] acc k hb h = rw add-zero h
from_be_loop-lt (b ∷ bs) acc k hb h =
    let e : k + suc (length bs) ≡ suc k + length bs = omega arith in
    rw e (from_be_loop-lt bs (acc * 256 + b) (suc k) hb.1 (rw pow-suc (omega (arith, hb.0))))

All-take : (n : ℕ) (bs : Bytes) → All IsByte bs → All IsByte (take n bs)
All-take zero bs h = tt
All-take (suc n) [] h = tt
All-take (suc n) (b ∷ bs) h = (h.0, All-take n bs h.1)

All-drop : (n : ℕ) (bs : Bytes) → All IsByte bs → All IsByte (drop n bs)
All-drop zero bs h = h
All-drop (suc n) [] h = tt
All-drop (suc n) (b ∷ bs) h = All-drop n bs h.1

pow_mono : (m n : ℕ) → m ≤ n → 256 ^ m ≤ 256 ^ n
pow_mono m n h = pow-le-pow_right (omega arith) h

from_be_bytes-slice-lt :
    (from to : ℕ) (bs : Bytes)
    → All IsByte bs
    → from_be_bytes (slice from to bs) < 256 ^ (to - from)
unfolding from_be_bytes
from_be_bytes-slice-lt from to bs h =
    let s = slice from to bs in
    let lt = from_be_loop-lt s 0 0 (All-take _ _ (All-drop from bs h)) (omega arith) in
    let le =
      pow_mono (0 + length s) (to - from)
        (omega (arith, length-take-le (to - from) (drop from bs))) in
    omega (arith, lt, le)

-- Whatever a payload of bytes holds, the header read from it fits the machine words.
pub decode-IsHeader :
    (payload : Bytes) (h : Header) → All IsByte payload → decode payload ≡ some h → IsHeader h
unfolding decode
decode-IsHeader payload h b e = ground (
  arith,
  from_be_bytes-slice-lt 0 8 payload b,
  from_be_bytes-slice-lt 8 12 payload b,
  from_be_bytes-slice-lt 12 16 payload b,
)
