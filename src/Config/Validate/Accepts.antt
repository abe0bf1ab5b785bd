-- ===== src/Config/Validate/Accepts.antt =====
-- internal/config/validate.go, `validateAction`: the actions that pass.
use crawlwall.Base.{
  zero, suc, ◌≤◌, String, ◌≡◌, refl, ◌↔◌, ◌⊎◌, inl, inr, Bool, true, false, ◌||◌, Option, none,
  some, ◌==◌, eq_iff, arith, ok, Bool-cases,
}
use crawlwall.Base.Int.{ℤ, pos, negsuc, ◌≤ℤ◌, is_nonpos, lt_ℤ}
use crawlwall.Base.Text.{is_blank}
use crawlwall.Config.{
  Action, Limit, Price, Float, finite, nan, inf, neg_inf, action_allow, action_block,
  action_rate_limit, action_allow_metered,
}
use crawlwall.Config.Validate.{
  is_resolvable_limit_key, float_nonpos, effective_status, check_block, check_limit, check_price,
  validate_action,
}

-- A float that `<= 0` refuses.
abbrev pub NotNonpos : Float → Type 0
NotNonpos (finite (pos n)) = 1 ≤ n
NotNonpos (finite (negsuc n)) = ⊥
NotNonpos neg_inf = ⊥
NotNonpos _ = Unit

-- What each kind of action needs.
pub data IsValidAction (a : Action) : Type 0 where
  allow : a.type ≡ "allow" → IsValidAction a
  block :
      a.type ≡ "block"
      → (a.status ≡ pos 0) ⊎ ((pos 100 ≤ℤ a.status) × (a.status ≤ℤ pos 599))
      → is_blank a.reason ≡ false
      → IsValidAction a
  rate_limit :
      (l : Limit)
      → a.type ≡ "rate_limit"
      → a.limit ≡ some l
      → is_blank l.key ≡ false
      → is_resolvable_limit_key l.key ≡ true
      → pos 1 ≤ℤ l.rpm
      → IsValidAction a
  allow_metered :
      (p : Price)
      → a.type ≡ "allow_metered"
      → a.price ≡ some p
      → NotNonpos p.amount
      → is_blank p.currency ≡ false
      → is_blank p.unit ≡ false
      → IsValidAction a

abbrev IsStatus : ℤ → Type 0
IsStatus s = (s ≡ pos 0) ⊎ ((pos 100 ≤ℤ s) × (s ≤ℤ pos 599))

abbrev out_of_range : ℤ → Bool
out_of_range s = lt_ℤ (effective_status s) (pos 100) || lt_ℤ (pos 599) (effective_status s)

out_of_range_sound : (s : ℤ) → out_of_range s ≡ false → IsStatus s
unfolding effective_status
out_of_range_sound (pos zero) h = inl refl
out_of_range_sound (pos (suc n)) h = inr (ground arith)
out_of_range_sound (negsuc n) h = absurd (ground arith)

out_of_range_complete : (s : ℤ) → IsStatus s → out_of_range s ≡ false
unfolding effective_status
out_of_range_complete (pos n) h = ground arith
out_of_range_complete (negsuc n) h = absurd (ground arith)

rpm_pos : (n : ℤ) → (is_nonpos n ≡ false) ↔ (pos 1 ≤ℤ n)
rpm_pos (pos n) = ground arith
rpm_pos (negsuc n) = ground arith

float_pos : (f : Float) → (float_nonpos f ≡ false) ↔ NotNonpos f
unfolding float_nonpos
float_pos nan = ground arith
float_pos inf = ground arith
float_pos neg_inf = ground arith
float_pos (finite (pos n)) = ground arith
float_pos (finite (negsuc n)) = ground arith

module _ (scope : String) where
  check_block_sound :
      (a : Action) → check_block scope a ≡ ok tt → IsStatus a.status × (is_blank a.reason ≡ false)
  unfolding check_block
  check_block_sound a h =
      let first : out_of_range a.status ≡ false = ground arith in
      (out_of_range_sound a.status first, ground arith)

  check_limit_sound :
      (o : Option Limit)
      → check_limit scope o ≡ ok tt
      → (l : Limit) × (o ≡ some l)
        × (is_blank l.key ≡ false)
        × (is_resolvable_limit_key l.key ≡ true)
        × (pos 1 ≤ℤ l.rpm)
  unfolding check_limit
  check_limit_sound none h = cc
  check_limit_sound (some l) h =
      (l, refl, ground arith, ground arith, (rpm_pos l.rpm).0 (ground arith))

  check_price_sound :
      (o : Option Price)
      → check_price scope o ≡ ok tt
      → (p : Price) × (o ≡ some p)
        × NotNonpos p.amount
        × (is_blank p.currency ≡ false)
        × (is_blank p.unit ≡ false)
  unfolding check_price
  check_price_sound none h = cc
  check_price_sound (some p) h =
      (p, refl, (float_pos p.amount).0 (ground arith), ground arith, ground arith)

  validate_action_sound : (a : Action) → validate_action scope a ≡ ok tt → IsValidAction a
  unfolding validate_action
  validate_action_sound a h = elim (Bool-cases (a.type == action_allow)) [
    | inl e ↦ allow ((eq_iff _ _).0 e)
    | inr n1 ↦ elim (Bool-cases (a.type == action_block)) [
      | inl e ↦ let (s, r) = check_block_sound a (ground arith) in block ((eq_iff _ _).0 e) s r
      | inr n2 ↦ elim (Bool-cases (a.type == action_rate_limit)) [
        | inl e ↦
            let (l, p, b, k, r) = check_limit_sound a.limit (ground arith) in
            rate_limit l ((eq_iff _ _).0 e) p b k r
        | inr n3 ↦ elim (Bool-cases (a.type == action_allow_metered)) [
          | inl e ↦
              let (p, q, f, c, u) = check_price_sound a.price (ground arith) in
              allow_metered p ((eq_iff _ _).0 e) q f c u
          | inr n4 ↦ absurd (ground arith)
        ]
      ]
    ]
  ]

  validate_action_complete : (a : Action) → IsValidAction a → validate_action scope a ≡ ok tt
  unfolding validate_action check_block check_limit check_price
  validate_action_complete a (allow e) = rw e refl
  validate_action_complete a (block e s r) = rw (e, out_of_range_complete a.status s, r) refl
  validate_action_complete a (rate_limit l e p b k r) = rw (e, p, b, k, (rpm_pos l.rpm).1 r) refl
  validate_action_complete a (allow_metered p e q f c u) =
      rw (e, q, (float_pos p.amount).1 f, c, u) refl

-- An action passes the checks exactly when it is valid for its kind.
pub validate_action_iff :
    (scope : String) (a : Action) → (validate_action scope a ≡ ok tt) ↔ IsValidAction a
validate_action_iff scope a = (validate_action_sound scope a, validate_action_complete scope a)
