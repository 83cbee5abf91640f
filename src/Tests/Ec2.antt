-- ===== src/Tests/Ec2.antt =====
-- The theorem on the expiry, with times printed in unary.
use gpt_jupyter_dns.Prelude.{
  ℕ, zero, suc, ◌+◌, ◌*◌, ◌≤◌, String, ◌≡◌, refl, ap, true, false, Option, some,
}
use gpt_jupyter_dns.Ec2.{expires_hours, second, Stamp, aware, replace_z, expires_at, is_expired}
use gpt_jupyter_dns.Ec2.Expiry.{is_expired-expires_at}

abbrev unary : ℕ → String
unary zero = String.[]
unary (suc n) = String.◌∷◌ "a" (unary n)

abbrev marks : String → ℕ
marks String.[] = 0
marks (String.◌∷◌ c s) = suc (marks s)

abbrev read_unary : String → Option Stamp
read_unary s = some (aware (marks s * second))

marks-unary : (n : ℕ) → marks (replace_z (unary n)) ≡ n
unfolding replace_z
marks-unary zero = refl
marks-unary (suc n) = ap suc (marks-unary n)

is_expired-expires_at_example :
    (9000000 + second ≤ 5000000 + expires_hours * 3600 * second
      → is_expired read_unary unary (expires_at read_unary unary 5000000) 9000000 ≡ false)
    × (5000000 + expires_hours * 3600 * second ≤ 9000000
        → is_expired read_unary unary (expires_at read_unary unary 5000000) 9000000 ≡ true)
is_expired-expires_at_example =
    is_expired-expires_at read_unary unary 5000000 9000000
      λ n. ap (λ k. some (aware (k * second))) (marks-unary n)
