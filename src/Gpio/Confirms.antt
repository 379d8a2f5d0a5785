-- ===== src/Gpio/Confirms.antt =====
-- crates/booth-pi/src/gpio.rs: a level that stays for the debounce window is confirmed.
use telephone_booth.Base.{
  ℕ, ◌-◌, ◌≤◌, Bool, true, none, some, List, [], ◌∷◌, ◌≡◌, refl, ap, subst, ◌∙◌, sym, ◌⊎◌, inl, inr,
  arith, leb, Option-cases, Bool-cases,
}
use telephone_booth.Hal.{PinRole}
use telephone_booth.Gpio.Debounce.{Debouncer, sample, consider, same_level}
use telephone_booth.Gpio.Poll.{get, GpioConfig, Tick, Poller, reading, is_active, poll_all}
use telephone_booth.Gpio.Steady.{Steady, level_of, active-step, pending-Steady}

-- The clock does not run backwards.
abbrev pub IsOrdered : List Tick → Type 0
IsOrdered [] = Unit {0}
IsOrdered (t ∷ []) = Unit {0}
IsOrdered (t ∷ u ∷ ts) = (u.now_ms ≤ t.now_ms) × IsOrdered (u ∷ ts)

-- The level is confirmed, or pending for as long as since that time.
abbrev IsSettling : Bool → ℕ → Debouncer → Type 0
IsSettling level since d =
    (d.confirmed ≡ level) ⊎ ((s : ℕ) × (s ≤ since) × (d.pending ≡ some (level, s)))

Steady-le :
    (config : GpioConfig) (role : PinRole) (level : Bool) (s : ℕ) (t : Tick) (ts : List Tick)
    → IsOrdered (t ∷ ts)
    → Steady config role level s (t ∷ ts)
    → s ≤ t.now_ms
Steady-le config role level s t [] o (same, inl e) = omega arith
Steady-le config role level s t [] o (same, inr h) = absurd h
Steady-le config role level s t (u ∷ ts) o (same, inl e) = omega arith
Steady-le config role level s t (u ∷ ts) o (same, inr h) =
    omega (arith, Steady-le config role level s u ts o.1 h, o.0)

-- A reading settles, or starts to, if nothing pending was seen later.
sample-begins :
    (debounce now : ℕ) (raw : Bool) (d : Debouncer)
    → ((s : ℕ) → d.pending ≡ some (raw, s) → s ≤ now)
    → IsSettling raw now (sample debounce now raw d).0
unfolding sample consider
sample-begins debounce now raw d early = elim (Option-cases d.pending) [
  | inl e ↦ elim (Bool-cases (same_level raw d.confirmed)) [
    | inl settled ↦ inl (ground arith)
    | inr news ↦ inr (now, omega arith, ground arith)
  ]
  | inr ((level, since), e) ↦ elim (Bool-cases (same_level raw d.confirmed)) [
    | inl settled ↦ inl (ground arith)
    | inr news ↦ elim (Bool-cases (same_level level raw)) [
      | inr other ↦ inr (now, omega arith, ground arith)
      | inl same ↦
          let same' : level ≡ raw = ground arith in
          elim (Bool-cases (leb debounce (now - since))) [
            | inl long ↦ inl (ground arith)
            | inr short ↦
                inr (since, early since (e ∙ ap (λ l. some (l, since)) same'), ground arith)
          ]
    ]
  ]
]

sample-goes_on :
    (debounce now : ℕ) (raw : Bool) (since : ℕ) (d : Debouncer)
    → IsSettling raw since d
    → IsSettling raw since (sample debounce now raw d).0
unfolding sample consider
sample-goes_on debounce now raw since d (inl e) = inl (ground arith)
sample-goes_on debounce now raw since d (inr (s, le, e)) =
    elim (Bool-cases (same_level raw d.confirmed)) [
      | inl settled ↦ inl (ground arith)
      | inr news ↦ elim (Bool-cases (leb debounce (now - s))) [
        | inl long ↦ inl (ground arith)
        | inr short ↦ inr (s, le, ground arith)
      ]
    ]

sample-ends :
    (debounce now : ℕ) (raw : Bool) (since : ℕ) (d : Debouncer)
    → debounce ≤ now - since
    → IsSettling raw since d
    → (sample debounce now raw d).0.confirmed ≡ raw
unfolding sample consider
sample-ends debounce now raw since d long (inl e) = ground arith
sample-ends debounce now raw since d long (inr (s, le, e)) = ground arith

module _ (config : GpioConfig) (role : PinRole) (active : is_active config role ≡ true) (p : Poller)
    (start : (get p.debouncers role).pending ≡ none) where
  early :
      (t : Tick) (ts : List Tick) (s : ℕ)
      → IsOrdered (t ∷ ts)
      → (get (poll_all config ts p).debouncers role).pending ≡ some (reading config t role, s)
      → s ≤ t.now_ms
  early t ts s o e =
      Steady-le config role (reading config t role) s t ts o
        (refl, inr (pending-Steady config role active ts p (reading config t role) s start e))

  settles :
      (ts : List Tick) (level : Bool) (since : ℕ)
      → IsOrdered ts
      → Steady config role level since ts
      → IsSettling level since (get (poll_all config ts p).debouncers role)
  unfolding poll_all
  settles [] level since o h = absurd h
  settles (t ∷ ts) level since o (same, or) =
      let before = poll_all config ts p in
      let step = active-step config role active t before in
      subst (IsSettling level since) (sym step) (
        subst
          (λ l.
            IsSettling l since
              (sample config.debounce_ms t.now_ms (reading config t role)
                (get before.debouncers role)).0)
          same
          (elim or [
            | inl e ↦
                subst
                  (λ n.
                    IsSettling (reading config t role) n
                      (sample config.debounce_ms t.now_ms (reading config t role)
                        (get before.debouncers role)).0)
                  e
                  (sample-begins config.debounce_ms t.now_ms (reading config t role)
                    (get before.debouncers role) (λ s. early t ts s o))
            | inr h ↦
                sample-goes_on config.debounce_ms t.now_ms (reading config t role) since
                  (get before.debouncers role)
                  (subst (λ l. IsSettling l since (get before.debouncers role)) (sym same)
                    (settles ts level since (later t ts o) h))
          ]))
    where
      later : (t : Tick) (ts : List Tick) → IsOrdered (t ∷ ts) → IsOrdered ts
      later t [] o = tt
      later t (u ∷ us) o = o.1

  -- If the debouncer of an active role starts with nothing pending and the clock does not run
  -- backwards, a level that all ticks read back to a time that the next tick, which reads it too, is
  -- later than by the debounce time at least, is confirmed after that tick.
  pub poll_all-confirms :
      (ts : List Tick) (t : Tick) (since : ℕ)
      → IsOrdered ts
      → Steady config role (reading config t role) since ts
      → config.debounce_ms ≤ t.now_ms - since
      → level_of role (poll_all config (t ∷ ts) p) ≡ reading config t role
  unfolding poll_all
  poll_all-confirms ts t since o h long =
      let before = poll_all config ts p in
      ap (λ d. d.confirmed) (active-step config role active t before)
      ∙ sample-ends config.debounce_ms t.now_ms (reading config t role) since
          (get before.debouncers role) long (settles ts (reading config t role) since o h)
