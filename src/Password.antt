-- ===== src/Password.antt =====
-- Where the password comes from, and the warnings about it (src/cli.rs).
pub mod Laws
use mathlib.Core.List.{reverse}
use Prim.Native.Nat.{bit_and}
use pulsemq_cli.Base.{
  ℕ, ◌+◌, ◌/◌, ◌%◌, Bool, true, false, not, ◌&&◌, ◌||◌, Option, none, some, List, [], ◌∷◌, ◌++◌,
  Bytes, text, ◌==◌, if◌then◌else◌, is_some, ◌⊎◌, inl, inr,
}
use pulsemq_cli.Cli.{ConnectionArgs}
use pulsemq_cli.Host.{Host}
use pulsemq_cli.Io.{World, Action, ◌>>=◌, ◌>>◌, return, modify, done, and_then}

-- `mode & 0o077 != 0`
readable_by_others : ℕ → Bool
readable_by_others mode = not (bit_and mode 63 == 0)

-- `{:04o}`, of `mode & 0o7777`
abbrev octal : ℕ → Bytes
octal n = (48 + n / 512 % 8) ∷ (48 + n / 64 % 8) ∷ (48 + n / 8 % 8) ∷ (48 + n % 8) ∷ []

abbrev readable_warning : Bytes → ℕ → Bytes
readable_warning path mode =
    text "wispmq-cli: warning: "
    ++ (path
        ++ (text " is readable by others (mode "
            ++ (octal (bit_and mode 4095) ++ text "); consider chmod 600")))

-- The warning is said once.
warn_if_readable_by_others : Host → Bytes → World → World
unfolding readable_by_others
warn_if_readable_by_others host path w = elim (host.file_mode path) [
  | none ↦ w
  | some mode ↦
      if readable_by_others mode && not w.warned_mode
      then record w { warned_mode = true; warnings = readable_warning path mode ∷ w.warnings }
      else w
]

pub is_line_break : ℕ → Bool
is_line_break b = b == 10 || b == 13

-- `while matches!(bytes.last(), Some(b'\n' | b'\r')) { bytes.pop(); }`, last byte first.
pop_line_breaks : Bytes → Bytes
unfolding is_line_break
pop_line_breaks [] = []
pop_line_breaks (b ∷ bs) = if is_line_break b then pop_line_breaks bs else b ∷ bs

pub strip_line_breaks : Bytes → Bytes
unfolding pop_line_breaks
strip_line_breaks bytes = reverse (pop_line_breaks (reverse bytes))

read_password_file : Bytes ⊎ Bytes → Bytes ⊎ Option Bytes
unfolding strip_line_breaks
read_password_file (inl e) = inl e
read_password_file (inr bytes) = inr (some (strip_line_breaks bytes))

-- Without the warning: which source wins.
unfoldable pub password_value : Host → Option Bytes → Option Bytes → Bytes ⊎ Option Bytes
unfolding read_password_file
password_value host (some path) given = read_password_file (host.read_file path)
password_value host none (some given) = inr (some given)
password_value host none none = inr host.password_variable

abbrev warn_for : Host → Option Bytes → World → World
warn_for host none w = w
warn_for host (some path) w = warn_if_readable_by_others host path w

unfoldable pub password : Host → ConnectionArgs → Action World (Bytes ⊎ Option Bytes)
unfolding password_value warn_if_readable_by_others
password host a w =
    done (password_value host a.password_file a.password) (warn_for host a.password_file w)

has_password_source : Host → ConnectionArgs → Bool
has_password_source host a =
    is_some a.password_file || is_some a.password || is_some host.password_variable

unfoldable pub warn_if_plaintext_password : Host → ConnectionArgs → World → World
unfolding has_password_source
warn_if_plaintext_password host a w =
    if has_password_source host a && not a.tls && not w.warned_plaintext
    then record w {
      warned_plaintext = true;
      warnings =
          text
            "wispmq-cli: warning: sending a password without --tls; it crosses the network in the clear"
          ∷ w.warnings;
    }
    else w
