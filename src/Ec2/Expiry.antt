-- ===== src/Ec2/Expiry.antt =====
-- When an instance that was tagged with `expires_at` counts as expired.
use gpt_jupyter_dns.Prelude.{ℕ, ◌+◌, ◌*◌, ◌≤◌, String, ◌≡◌, true, false, Option, some, arith}
use gpt_jupyter_dns.Ec2.{expires_hours, second, Stamp, aware, replace_z, expires_at, is_expired}

module _ (fromisoformat : String → Option Stamp) (strftime : ℕ → String) where
  -- With a tag that `fromisoformat` reads as the second that `strftime` printed, an instance is not
  -- expired while a whole second or more is left of the four hours from `now`, and it is expired
  -- when they are over.
  pub is_expired-expires_at :
      (now later : ℕ)
      → ((n : ℕ) → fromisoformat (replace_z (strftime n)) ≡ some (aware (n * second)))
      → (later + second ≤ now + expires_hours * 3600 * second
          → is_expired fromisoformat strftime (expires_at fromisoformat strftime now) later ≡ false)
        × (now + expires_hours * 3600 * second ≤ later
            → is_expired fromisoformat strftime (expires_at fromisoformat strftime now) later
              ≡ true)
  unfolding is_expired expires_at
  is_expired-expires_at now later reads = (
    λ early. rw (reads, is_expired) (ground arith),
    λ late. rw (reads, is_expired) (ground arith),
  )
