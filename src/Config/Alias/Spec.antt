-- ===== src/Config/Alias/Spec.antt =====
-- internal/config/alias.go, `parseSSHSpec`: a target of the form user@host:port.
use clipbeam_cli.Prelude.{
  ℕ, suc, ◌+◌, ◌-◌, ◌*◌, ◌<◌, ◌≡◌, refl, ◌≢◌, inl, inr, Bool, true, false, ◌||◌, Option, none, some,
  [], ◌∷◌, ◌++◌, arith, ltb, if◌then◌else◌, lt→ltb, Option-cases, length, drop, All,
  take-length-append, All-append, Bytes,
}
use clipbeam_cli.Go.Strings.{last_index}
use clipbeam_cli.Classify.{count_byte}
use clipbeam_cli.Config.Alias.{
  port_digits, in_range, atoi_port, split_user, split_port, with_user, parse_ssh_spec,
}

abbrev pub Without : ℕ → Bytes → Type 0
Without c s = All (λ b. b ≢ c) s

last_index-none : (c : ℕ) (s : Bytes) → Without c s → last_index c s ≡ none
unfolding last_index
last_index-none c [] h = refl
last_index-none c (b ∷ s) (ne, h) = rw (last_index-none c s h, last_index) (ground (arith, ne))

last_index-append :
    (c : ℕ) (a s : Bytes) → Without c s → last_index c (a ++ c ∷ s) ≡ some (length a)
unfolding last_index
last_index-append c [] s h = rw (last_index-none c s h, last_index) (ground arith)
last_index-append c (x ∷ a) s h = rw (last_index-append c a s h, last_index) refl

digit_step :
    (t : Bool) (later : Option ℕ) (p : ℕ)
    → (if t then none else later) ≡ some p
    → (t ≡ false) × (later ≡ some p)
digit_step true later p h = absurd (cc)
digit_step false later p h = (refl, h)

-- The bytes of a port are digits.
port_digits-Without :
    (c n : ℕ) (s : Bytes) (p : ℕ) → b'9' < c → port_digits n s ≡ some p → Without c s
unfolding port_digits
port_digits-Without c n [] p lt h = tt
port_digits-Without c n (b ∷ s) p lt h =
    let d = digit_step (ltb b b'0' || ltb b'9' b) (port_digits (n * 10 + (b - b'0')) s) p h in
    (λ e. ground (arith, d.0, lt, e), port_digits-Without c (n * 10 + (b - b'0')) s p lt d.1)

atoi_port_digits : (s : Bytes) → 0 < atoi_port s → (p : ℕ) × (port_digits 0 s ≡ some p)
unfolding atoi_port in_range
atoi_port_digits s pos = elim (Option-cases (port_digits 0 s)) [
  | inl bad ↦ absurd (ground (arith, bad, pos))
  | inr (p, e) ↦ (p, e)
]

-- A valid port holds no byte above the digits.
atoi_port-Without : (c : ℕ) (s : Bytes) → b'9' < c → 0 < atoi_port s → Without c s
atoi_port-Without c s lt pos =
    let d = atoi_port_digits s pos in port_digits-Without c 0 s d.0 lt d.1

count_byte-none : (c : ℕ) (s : Bytes) → Without c s → count_byte c s ≡ 0
unfolding count_byte
count_byte-none c [] h = refl
count_byte-none c (b ∷ s) (ne, h) = rw (count_byte-none c s h, count_byte) (ground (arith, ne))

count_byte-once : (c : ℕ) (a s : Bytes) → Without c a → Without c s → count_byte c (a ++ c ∷ s) ≡ 1
unfolding count_byte
count_byte-once c [] s h k = rw (count_byte-none c s k, count_byte) (ground arith)
count_byte-once c (x ∷ a) s (ne, h) k =
    rw (count_byte-once c a s h k, count_byte) (ground (arith, ne))

drop-past : (c : ℕ) (a s : Bytes) → drop (suc (length a)) (a ++ c ∷ s) ≡ s
drop-past c [] s = refl
drop-past c (x ∷ a) s = drop-past c a s

split_port-append :
    (host digits : Bytes)
    → Without b':' host
    → 0 < atoi_port digits
    → split_port (host ++ b':' ∷ digits) (some (length host)) ≡ (host, atoi_port digits)
unfolding split_port
split_port-append host digits h pos =
    rw
      (
        drop-past b':' host digits,
        count_byte-once b':' host digits h (atoi_port-Without b':' digits (omega arith) pos),
        take-length-append host (b':' ∷ digits),
        lt→ltb 0 (atoi_port digits) pos,
      )
      refl

-- A target `user@host:port` is split into its parts, where the host holds no `@` and no colon and the port is a number
-- from 1 to 65535; the user may hold either.
pub parse_ssh_spec-parts :
    (user host digits : Bytes)
    → Without b'@' host
    → Without b':' host
    → 0 < atoi_port digits
    → parse_ssh_spec (user ++ b'@' ∷ (host ++ b':' ∷ digits))
      ≡ record { user = user; host = host; port = atoi_port digits }
unfolding parse_ssh_spec split_user with_user
parse_ssh_spec-parts user host digits at colon pos =
    rw
      (
        last_index-append b'@' user (host ++ b':' ∷ digits) (
            All-append (λ b. b ≢ b'@') host (b':' ∷ digits) at
              (omega arith, atoi_port-Without b'@' digits (omega arith) pos)),
        take-length-append user (b'@' ∷ (host ++ b':' ∷ digits)),
        drop-past b'@' user (host ++ b':' ∷ digits),
        last_index-append b':' host digits (atoi_port-Without b':' digits (omega arith) pos),
        split_port-append host digits colon pos,
      )
      refl
