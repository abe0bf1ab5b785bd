-- ===== src/Cli/Commands/Retention.antt =====
-- cmd/crawlwall/main.go: the duration of `ledger vacuum`.
use mathlib.Core.Path.{subst}
use crawlwall.Base.{
  String, ◌≡◌, false, Result, ok, reject, >>-eq-ok, >>=-eq-ok, ok-injective, reject-eq-ok,
}
use crawlwall.Base.Int.{ℤ, is_nonpos}
use crawlwall.Cli.Commands.{parse_retention_duration, vacuum_duration}

module _ (parse_duration : String → Result String ℤ) where
  -- A duration that `ledger vacuum` deletes by is positive.
  pub vacuum_duration-pos :
      (older_than : String) (d : ℤ)
      → vacuum_duration parse_duration older_than ≡ ok d
      → is_nonpos d ≡ false
  unfolding vacuum_duration
  vacuum_duration-pos older_than d h =
      let (_, m₁) = >>-eq-ok (reject _ _) _ h in
      let (found, parsed, m₂) =
        >>=-eq-ok (parse_retention_duration parse_duration older_than) _ m₁ in
      let (above, m₃) = >>-eq-ok (reject (is_nonpos found) _) _ m₂ in
      subst (λ x. is_nonpos x ≡ false) (ok-injective m₃) (reject-eq-ok (is_nonpos found) _ above)
