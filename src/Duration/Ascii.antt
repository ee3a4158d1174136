-- ===== src/Duration/Ascii.antt =====
-- Durations in ASCII, at which `split_at` cannot panic.
use bbkar.Common.{ℕ, zero, suc, ◌-◌, ◌≤◌, ◌<◌, ◌≡◌, refl, ap, arith, true, Option, none}
use bbkar.Common.{[], ◌∷◌, length, All, is_some, some_of, Bool-cases, inl, inr}
use bbkar.Common.Br.{ok, unwrap}
use bbkar.Common.Search.{All-reverse}
use bbkar.Common.Text.{Text, len, len_utf8, split_at, parse_u32}
use bbkar.Duration.{
  CalendarDuration, trim, trim_start, is_whitespace, split_last, parse_trimmed, parse_duration,
  parse_count, unit_of,
}

abbrev pub IsAscii : Text → Type 0
IsAscii = All (λ c. c < 128)

pub len-IsAscii : (s : Text) → IsAscii s → len s ≡ length s
unfolding len len_utf8
len-IsAscii [] h = refl
len-IsAscii (c ∷ s) h = ground (arith, len-IsAscii s h.1)

pub split_at-IsAscii : (n : ℕ) (s : Text) → n ≤ length s → IsAscii s → is_some (split_at n s) ≡ true
unfolding split_at len_utf8
split_at-IsAscii zero s le h = refl
split_at-IsAscii (suc n) [] le h = absurd (omega arith)
split_at-IsAscii (suc n) (c ∷ s) le h = ground (arith, split_at-IsAscii n s (omega arith) h.1)

trim_start-IsAscii : (s : Text) → IsAscii s → IsAscii (trim_start s)
unfolding trim_start
trim_start-IsAscii [] h = tt
trim_start-IsAscii (c ∷ s) h = elim (Bool-cases (is_whitespace c)) [
  | inl space ↦ rw space (trim_start-IsAscii s h.1)
  | inr other ↦ rw other h
]

trim-IsAscii : (s : Text) → IsAscii s → IsAscii (trim s)
unfolding trim
trim-IsAscii s h =
    All-reverse (λ c. c < 128) _
      (trim_start-IsAscii _ (All-reverse (λ c. c < 128) _ (trim_start-IsAscii s h)))

split_last-IsAscii :
    (c : ℕ) (s : Text) → IsAscii (c ∷ s) → (p : Text × Text) × (split_last (c ∷ s) ≡ ok p)
unfolding split_last
split_last-IsAscii c s h =
    let (p, e) =
      some_of (split_at (len (c ∷ s) - 1) (c ∷ s))
        (split_at-IsAscii (len (c ∷ s) - 1) (c ∷ s) (omega (arith, len-IsAscii (c ∷ s) h)) h) in
    (p, ap unwrap e)

parse_trimmed-IsAscii :
    (s : Text) → IsAscii s → (d : Option CalendarDuration) × (parse_trimmed s ≡ ok d)
parse_trimmed-IsAscii [] h = (none, refl)
parse_trimmed-IsAscii (c ∷ s) h =
    let (p, e) = split_last-IsAscii c s h in (parse_count (parse_u32 p.0) (unit_of p.1), rw e refl)

-- For a text in ASCII `CalendarDuration::parse` returns, a duration or `None`: it does not panic.
pub parse_duration-IsAscii :
    (s : Text) → IsAscii s → (d : Option CalendarDuration) × (parse_duration s ≡ ok d)
unfolding parse_duration
parse_duration-IsAscii s h = parse_trimmed-IsAscii (trim s) (trim-IsAscii s h)
