-- ===== src/Password/Laws.antt =====
-- The order of the password's sources, and the line breaks at the end of a password file.
use mathlib.Core.List.{reverse, reverse-reverse, reverse-append, reverse-cons}
use pulsemq_cli.Base.{
  ℕ, Bool, true, false, none, some, List, [], ◌∷◌, ◌++◌, Bytes, inl, inr, ◌≡◌, refl, sym, ap, ◌∙◌,
  ◌≢◌, ◌⊎◌, arith, All, All-append, Bool-cases, Option-cases, ◌&&◌, not,
}
use pulsemq_cli.Cli.{ConnectionArgs}
use pulsemq_cli.Host.{Host}
use pulsemq_cli.Io.{World, done}
use pulsemq_cli.Io.Laws.{result_of}
use pulsemq_cli.Password.{
  readable_by_others, is_line_break, pop_line_breaks, strip_line_breaks, password, password_value,
  warn_if_readable_by_others,
}

abbrev pub AllBreaks : Bytes → Type 0
AllBreaks = All (λ b. (b ≡ 10) ⊎ (b ≡ 13))

-- The last byte, if there is one, is no line break.
abbrev pub HeadKept : Bytes → Type 0
HeadKept [] = Unit {0}
HeadKept (b ∷ bs) = (b ≢ 10) × (b ≢ 13)

break : (b : ℕ) → is_line_break b ≡ true → (b ≡ 10) ⊎ (b ≡ 13)
unfolding is_line_break
break b h = ground arith

no_break : (b : ℕ) → is_line_break b ≡ false → (b ≢ 10) × (b ≢ 13)
unfolding is_line_break
no_break b h = ground arith

-- `kept` is `file` without the line breaks at its end: LF and CR, and all of them.
abbrev pub Stripped : Bytes → Bytes → Type 0
Stripped file kept =
    (breaks : Bytes) × AllBreaks breaks × (file ≡ kept ++ breaks) × HeadKept (reverse kept)

pop_split :
    (bs : Bytes)
    → (popped : Bytes) × AllBreaks popped
      × (bs ≡ popped ++ pop_line_breaks bs)
      × HeadKept (pop_line_breaks bs)
unfolding pop_line_breaks
pop_split [] = ([], tt, refl, tt)
pop_split (b ∷ bs) = elim (Bool-cases (is_line_break b)) [
  | inl e ↦
      let (popped, all, split, kept) = pop_split bs in
      rw e (b ∷ popped, (break b e, all), ap (◌∷◌ b) split, kept)
  | inr e ↦ rw e ([], tt, refl, no_break b e)
]

All-reverse {κ} : (P : ℕ → Type κ) (xs : Bytes) → All P xs → All P (reverse xs)
All-reverse P [] h = tt
All-reverse P (x ∷ xs) h =
    rw (reverse-cons x xs) (All-append P (reverse xs) (x ∷ []) (All-reverse P xs h.1) (h.0, tt))

-- Exactly the line breaks at the end of a password file are removed.
strip_line_breaks_lem :
    (bytes : Bytes)
    → (breaks : Bytes) × AllBreaks breaks
      × (bytes ≡ strip_line_breaks bytes ++ breaks)
      × HeadKept (reverse (strip_line_breaks bytes))
unfolding strip_line_breaks
strip_line_breaks_lem bytes =
    let (popped, all, split, kept) = pop_split (reverse bytes) in
    (
      reverse popped,
      All-reverse _ popped all,
      sym (reverse-reverse bytes) ∙ ap reverse split ∙ reverse-append popped _,
      rw reverse-reverse kept,
    )

-- A password file beats --password, which beats the environment; only an unreadable file is an
-- error, and of a file just the LF and CR bytes at its end are removed, all of them.
pub password_precedence :
    (host : Host) (a : ConnectionArgs) (w : World)
    → let r = result_of (password host a w) in
      ((path : Bytes)
        → a.password_file ≡ some path
        → ((e : Bytes) → host.read_file path ≡ inl e → r ≡ some (inl e))
          × ((b : Bytes)
              → host.read_file path ≡ inr b
              → (kept : Bytes) × (r ≡ some (inr (some kept))) × Stripped b kept))
      × (a.password_file ≡ none → (p : Bytes) → a.password ≡ some p → r ≡ some (inr (some p)))
      × (a.password_file ≡ none → a.password ≡ none → r ≡ some (inr host.password_variable))
unfolding password
password_precedence host a w = (
  (λ path f.
      ((λ e h. ground arith), λ b h. (strip_line_breaks b, ground arith, strip_line_breaks_lem b))),
  (λ f p h. ground arith),
  λ f h. ground arith,
)

warned :
    (host : Host) (path : Bytes) (w : World)
    → (ws : List Bytes) × (b : Bool) × (warn_if_readable_by_others host path w
        ≡ record w { warnings = ws; warned_mode = b })
unfolding warn_if_readable_by_others
warned host path w = elim (Option-cases (host.file_mode path)) [
  | inl e ↦ rw (e, warn_if_readable_by_others) (w.warnings, w.warned_mode, refl)
  | inr (mode, e) ↦ elim (Bool-cases (readable_by_others mode && not w.warned_mode)) [
    | inl b ↦ rw (e, warn_if_readable_by_others, b) (_, true, refl)
    | inr b ↦ rw (e, warn_if_readable_by_others, b) (w.warnings, w.warned_mode, refl)
  ]
]

-- Reading the password ends, and changes nothing but the warnings.
pub password_shape :
    (host : Host) (a : ConnectionArgs) (w : World)
    → (ws : List Bytes) × (warned : Bool) × (password host a w
        ≡ done
            (password_value host a.password_file a.password)
            (record w { warnings = ws; warned_mode = warned }))
unfolding password warn_if_readable_by_others
password_shape host a w = elim (Option-cases a.password_file) [
  | inl e ↦ rw (e, password) (w.warnings, w.warned_mode, refl)
  | inr (path, e) ↦
      let (ws, b, h) = warned host path w in
      rw (e, password) (ws, b, ap (done (password_value host (some path) a.password)) h)
]
