-- ===== src/Telemetry/LatestLed.antt =====
-- crates/booth-telemetry/src/lib.rs: the retained status LED record, when publishers race. An id is
-- taken before the lock, so records may reach the slot in any order.
use telephone_booth.Base.{
  ℕ, ◌≤◌, Bool, true, false, Option, none, some, List, [], ◌∷◌, ◌≡◌, refl, ◌⊎◌, inl, inr, arith,
  ltb, All, Bool-cases,
}
use telephone_booth.Telemetry.Bus.{TelemetryRecord, hold_newest, retain_status_led}

module _ {E : Type 0} (is_status_led : E → Bool) where
  -- The slot after the arrivals, the last one first.
  unfoldable pub arrive : List (TelemetryRecord E) → Option (TelemetryRecord E)
  arrive [] = none
  arrive (r ∷ rs) = retain_status_led is_status_led r (arrive rs)

  abbrev pub IsOneOf : TelemetryRecord E → List (TelemetryRecord E) → Type 0
  IsOneOf held [] = ⊥
  IsOneOf held (r ∷ rs) = (held ≡ r) ⊎ IsOneOf held rs

  -- No LED record of the list is newer than this id.
  abbrev pub NoneNewer : ℕ → List (TelemetryRecord E) → Type 0
  NoneNewer id = All λ r. is_status_led r.event ≡ true → r.id ≤ id

  abbrev pub IsNewestLed : List (TelemetryRecord E) → Option (TelemetryRecord E) → Type 0
  IsNewestLed rs none = All (λ r. is_status_led r.event ≡ false) rs
  IsNewestLed rs (some held) =
      IsOneOf held rs × (is_status_led held.event ≡ true) × NoneNewer held.id rs

  none-NoneNewer :
      (id : ℕ) (rs : List (TelemetryRecord E))
      → All (λ r. is_status_led r.event ≡ false) rs
      → NoneNewer id rs
  none-NoneNewer id [] h = tt
  none-NoneNewer id (r ∷ rs) h = (λ led. ground arith, none-NoneNewer id rs h.1)

  NoneNewer-le : (a b : ℕ) (rs : List (TelemetryRecord E)) → a ≤ b → NoneNewer a rs → NoneNewer b rs
  NoneNewer-le a b [] le h = tt
  NoneNewer-le a b (r ∷ rs) le h = (λ led. omega (arith, h.0 led), NoneNewer-le a b rs le h.1)

  retain-IsNewestLed :
      (r : TelemetryRecord E) (rs : List (TelemetryRecord E)) (latest : Option (TelemetryRecord E))
      → IsNewestLed rs latest
      → IsNewestLed (r ∷ rs) (retain_status_led is_status_led r latest)
  unfolding retain_status_led hold_newest
  retain-IsNewestLed r rs none h = elim (Bool-cases (is_status_led r.event)) [
    | inl led ↦ rw led (inl refl, led, ((λ l. omega arith), none-NoneNewer r.id rs h))
    | inr other ↦ rw other (other, h)
  ]
  retain-IsNewestLed r rs (some held) (one, led', newest) =
      elim (Bool-cases (is_status_led r.event)) [
        | inr other ↦ rw other (inr one, led', ((λ l. ground arith), newest))
        | inl led ↦ elim (Bool-cases (ltb held.id r.id)) [
          | inl newer ↦
              rw (led, newer)
                (
                  inl refl,
                  led,
                  ((λ l. omega arith), NoneNewer-le held.id r.id rs (ground arith) newest),
                )
          | inr older ↦ rw (led, older) (inr one, led', ((λ l. ground arith), newest))
        ]
      ]

  -- In whatever order records reach the slot: it is empty exactly as long as no LED record came, and
  -- else it holds an LED record that came, and none that came has a higher id.
  pub arrive-IsNewestLed : (rs : List (TelemetryRecord E)) → IsNewestLed rs (arrive rs)
  unfolding arrive
  arrive-IsNewestLed [] = tt
  arrive-IsNewestLed (r ∷ rs) = retain-IsNewestLed r rs (arrive rs) (arrive-IsNewestLed rs)
