-- ===== src/Handler/Status.antt =====
-- module.go: the status that an event records where the next handler answers, and the one that the
-- client gets.
use crawlwall.Base.{
  String, ◌≡◌, refl, ap, true, none, some, if◌then◌else◌, ◌⊎◌, inl, inr, arith, Bool-cases,
  Option-cases,
}
use crawlwall.Base.Int.{ℤ, pos, negsuc, eq_ℤ}
use crawlwall.Handler.{Next}
use crawlwall.Handler.Serve.{status_or}

-- The status that the client gets where the next handler answers: the one it wrote; that which the
-- server gives an error it returned with nothing written (`on_error`); else 200.
abbrev pub client_status : (String → ℤ) → Next → ℤ
client_status on_error next =
    if eq_ℤ next.status (pos 0)
    then elim next.failure [ none ↦ pos 200 | some m ↦ on_error m ]
    else next.status

-- An error was returned with nothing written.
abbrev pub IsUnwrittenError : Next → Type 0
IsUnwrittenError next = (next.status ≡ pos 0) × ((m : String) × (next.failure ≡ some m))

zero_status : (z : ℤ) → eq_ℤ z (pos 0) ≡ true → z ≡ pos 0
zero_status (pos n) e = ap pos (ground arith)
zero_status (negsuc n) e = absurd (ground arith)

-- The recorded status is the client's, but for an error with nothing written.
pub status-Agrees :
    (on_error : String → ℤ) (next : Next)
    → (status_or (pos 200) next.status ≡ client_status on_error next)
      ⊎ (IsUnwrittenError next × (status_or (pos 200) next.status ≡ pos 200))
status-Agrees on_error next = elim (Bool-cases (eq_ℤ next.status (pos 0))) [
  | inr e ↦ rw e (inl refl)
  | inl e ↦ elim (Option-cases next.failure) [
    | inl f ↦ rw (e, f) (inl refl)
    | inr (m, f) ↦ rw e (inr ((zero_status next.status e, (m, f)), refl))
  ]
]
