-- ===== src/Subscribe/Terminal.antt =====
-- The escaping of broker bytes for a terminal: the loop writes each byte once, plain or escaped.
use mathlib.Core.List.{append-nil, append_assoc}
use pulsemq_cli.Base.{
  ℕ, zero, suc, ◌+◌, ◌-◌, ◌≤◌, ◌<◌, true, false, [], ◌∷◌, ◌++◌, Bytes, take, drop, if◌then◌else◌,
  ◌≡◌, ◌≢◌, ◌⊎◌, inl, inr, refl, sym, ap, ◌∙◌, arith, All, All-append, IsByte, Bool-cases,
  take-append-drop, drop-add,
}
use pulsemq_cli.Error.{hex_lower}
use pulsemq_cli.Subscribe.Output.{printable, escape_byte, write_loop, write_payload}

-- Each byte on its own.
abbrev pub escaped : Bytes → Bytes
escaped [] = []
escaped (b ∷ bs) = (if printable b then b ∷ [] else escape_byte b) ++ escaped bs

take-suc :
    (n : ℕ) (xs rest : Bytes) (b : ℕ)
    → drop n xs ≡ b ∷ rest
    → (take (n + 1) xs ≡ take n xs ++ (b ∷ [])) × (drop (n + 1) xs ≡ rest)
take-suc zero [] rest b h = cc
take-suc zero (x ∷ xs) rest b h = ground arith
take-suc (suc n) [] rest b h = cc
take-suc (suc n) (x ∷ xs) rest b h =
    let e : suc n + 1 ≡ suc (n + 1) = omega arith in
    let (l, r) = take-suc n xs rest b h in rw e (ap (◌∷◌ x) l, r)

take_of_drop_nil : (n : ℕ) (xs : Bytes) → drop n xs ≡ [] → take n xs ≡ xs
take_of_drop_nil n xs h =
    sym (append-nil (take n xs)) ∙ ap (◌++◌ (take n xs)) (sym h) ∙ take-append-drop n xs

next_index : (p n i : ℕ) → p + n ≡ i → i + 1 ≡ p + (n + 1)
next_index p n i e = omega arith

write_loop-escaped :
    (rest bytes out : Bytes) (plain_from n index : ℕ)
    → plain_from + n ≡ index
    → drop n (drop plain_from bytes) ≡ rest
    → write_loop bytes plain_from index rest out
      ≡ out ++ (take n (drop plain_from bytes) ++ escaped rest)
unfolding write_loop
write_loop-escaped [] bytes out p n i e h =
    rw append-nil (ap (◌++◌ out) (sym (take_of_drop_nil n (drop p bytes) h)))
write_loop-escaped (b ∷ rest) bytes out p n i e h = elim (Bool-cases (printable b)) [
  | inl t ↦
      let (more, past) = take-suc n (drop p bytes) rest b h in
      rw t (
        write_loop-escaped rest bytes out p (n + 1) (i + 1) (omega arith) past
        ∙ ap (λ (w : Bytes). out ++ (w ++ escaped rest)) more
        ∙ ap (◌++◌ out) (append_assoc (take n (drop p bytes)) (b ∷ []) (escaped rest)))
  | inr t ↦
      let (more, past) = take-suc n (drop p bytes) rest b h in
      let run : i - p ≡ n = omega arith in
      let here : drop (i + 1) bytes ≡ rest =
        ap (λ (k : ℕ). drop k bytes) (next_index p n i e) ∙ drop-add p (n + 1) bytes ∙ past in
      rw (t, run)
        (write_loop-escaped rest bytes (out ++ (take n (drop p bytes) ++ escape_byte b)) (i + 1) 0
            (i + 1) (omega arith) here
          ∙ append_assoc out _ (escaped rest)
          ∙ ap (◌++◌ out) (append_assoc (take n (drop p bytes)) (escape_byte b) (escaped rest)))
]

-- A terminal gets each byte once and in order, plain if it is printable and else as an escape; any
-- other destination gets the message as it came.
pub write_payload_lem :
    (out bytes : Bytes)
    → (write_payload out bytes true ≡ out ++ escaped bytes)
      × (write_payload out bytes false ≡ out ++ bytes)
unfolding write_payload
write_payload_lem out bytes = (write_loop-escaped bytes bytes out 0 0 0 refl refl, refl)

-- Neither a control character other than tab nor DEL.
abbrev pub IsSafe : ℕ → Type 0
IsSafe b = (b ≡ 9) ⊎ ((32 ≤ b) × (b ≢ 127))

hex_lower-IsSafe : (b : ℕ) → b < 256 → All IsSafe (hex_lower b)
unfolding hex_lower
hex_lower-IsSafe b h = ground arith

printable-IsSafe : (b : ℕ) → printable b ≡ true → IsSafe b
unfolding printable
printable-IsSafe b h = ground arith

one-IsSafe : (b : ℕ) → b < 256 → All IsSafe (if printable b then b ∷ [] else escape_byte b)
unfolding escape_byte
one-IsSafe b h = elim (Bool-cases (printable b)) [
  | inl t ↦ rw t (printable-IsSafe b t, tt)
  | inr t ↦ rw t (omega arith, (omega arith, hex_lower-IsSafe b h))
]

escaped-IsSafe : (bytes : Bytes) → All IsByte bytes → All IsSafe (escaped bytes)
escaped-IsSafe [] h = tt
escaped-IsSafe (b ∷ bs) h =
    All-append IsSafe _ (escaped bs) (one-IsSafe b h.0) (escaped-IsSafe bs h.1)

-- Whatever bytes a payload holds, no byte below 0x20 but tab, and no DEL, reaches a terminal.
pub write_payload-IsSafe :
    (bytes : Bytes) → All IsByte bytes → All IsSafe (write_payload [] bytes true)
write_payload-IsSafe bytes h = rw (write_payload_lem [] bytes).0 (escaped-IsSafe bytes h)

-- Printable text, bytes from 0x80 included, passes unchanged.
pub write_payload-printable :
    (out bytes : Bytes)
    → All (λ b. printable b ≡ true) bytes
    → write_payload out bytes true ≡ out ++ bytes
write_payload-printable out bytes h =
    (write_payload_lem out bytes).0 ∙ ap (◌++◌ out) (plain bytes h)
  where
    plain : (bs : Bytes) → All (λ b. printable b ≡ true) bs → escaped bs ≡ bs
    plain [] h = refl
    plain (b ∷ bs) h = rw h.0 (ap (◌∷◌ b) (plain bs h.1))
