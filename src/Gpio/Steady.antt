-- ===== src/Gpio/Steady.antt =====
-- crates/booth-pi/src/gpio.rs: a level is confirmed after the debounce window, and only then.
use telephone_booth.Base.{
  ℕ, ◌-◌, ◌≤◌, Bool, true, none, some, List, [], ◌∷◌, ◌≡◌, refl, ap, subst, ◌∙◌, sym, ◌⊎◌, inl, inr,
  arith, leb, Option-cases, Bool-cases,
}
use telephone_booth.Hal.{PinRole}
use telephone_booth.Gpio.Debounce.{Debouncer, sample, consider, same_level}
use telephone_booth.Gpio.Poll.{get, GpioConfig, Tick, Poller, reading, is_active, poll, poll_all}
use telephone_booth.Gpio.Steps.{step, poll-step}

-- From the newest tick back to one at the time `since`, all ticks read the level.
abbrev pub Steady : GpioConfig → PinRole → Bool → ℕ → List Tick → Type 0
Steady config role level since [] = ⊥
Steady config role level since (t ∷ ts) =
    (reading config t role ≡ level) × ((t.now_ms ≡ since) ⊎ Steady config role level since ts)

-- The confirmed level of a role.
abbrev pub level_of : PinRole → Poller → Bool
level_of role p = (get p.debouncers role).confirmed

sample-pending :
    (debounce now : ℕ) (raw : Bool) (d : Debouncer) (level : Bool) (since : ℕ)
    → (sample debounce now raw d).0.pending ≡ some (level, since)
    → (raw ≡ level) × ((now ≡ since) ⊎ (d.pending ≡ some (level, since)))
unfolding sample consider
sample-pending debounce now raw d level since e = ground arith

sample-confirmed :
    (debounce now : ℕ) (raw : Bool) (d : Debouncer)
    → ((sample debounce now raw d).0.confirmed ≡ d.confirmed)
      ⊎ ((since : ℕ) × (d.pending ≡ some (raw, since))
          × (debounce ≤ now - since)
          × ((sample debounce now raw d).0.confirmed ≡ raw))
unfolding sample consider
sample-confirmed debounce now raw d = elim (Option-cases d.pending) [
  | inl e ↦ inl (ground arith)
  | inr ((level, since), e) ↦ elim (Bool-cases (leb debounce (now - since))) [
    | inl h ↦ elim (Bool-cases (same_level level raw)) [
      | inl same ↦ elim (Bool-cases (same_level raw d.confirmed)) [
        | inl settled ↦ inl (ground arith)
        | inr news ↦
            inr (since, e ∙ ap (λ l. some (l, since)) (ground arith), ground arith, ground arith)
      ]
      | inr other ↦ inl (ground arith)
    ]
    | inr h ↦ inl (ground arith)
  ]
]

module _ (config : GpioConfig) (role : PinRole) (active : is_active config role ≡ true) where
  pub active-step :
      (t : Tick) (p : Poller)
      → get (poll config t p).debouncers role
        ≡ (sample config.debounce_ms t.now_ms (reading config t role) (get p.debouncers role)).0
  unfolding step
  active-step t p = poll-step config t p role ∙ rw active refl

  pub pending-Steady :
      (ts : List Tick) (p : Poller) (level : Bool) (since : ℕ)
      → (get p.debouncers role).pending ≡ none
      → (get (poll_all config ts p).debouncers role).pending ≡ some (level, since)
      → Steady config role level since ts
  unfolding poll_all
  pending-Steady [] p level since start e = ground arith
  pending-Steady (t ∷ ts) p level since start e =
      let before = poll_all config ts p in
      let (same, or) =
        sample-pending config.debounce_ms t.now_ms (reading config t role)
          (get before.debouncers role) level since
          (ap (λ d. d.pending) (sym (active-step t before)) ∙ e) in
      (
        same,
        elim or [ inl now ↦ inl now | inr old ↦ inr (pending-Steady ts p level since start old) ],
      )

  -- If the debouncer of an active role starts with nothing pending, then after any ticks one more
  -- tick either leaves its level, or makes it the level that this tick reads, and then all ticks read
  -- that level back to one that is older by the debounce time at least.
  pub poll_all-debounces :
      (ts : List Tick) (t : Tick) (p : Poller)
      → (get p.debouncers role).pending ≡ none
      → let before = poll_all config ts p in
        let after = poll_all config (t ∷ ts) p in
        (level_of role after ≡ level_of role before)
        ⊎ ((since : ℕ) × (config.debounce_ms ≤ t.now_ms - since)
            × Steady config role (level_of role after) since (t ∷ ts))
  unfolding poll_all
  poll_all-debounces ts t p start =
      let before = poll_all config ts p in
      elim (sample-confirmed config.debounce_ms t.now_ms (reading config t role)
        (get before.debouncers role)) [
          | inl kept ↦ inl (ap (λ d. d.confirmed) (active-step t before) ∙ kept)
          | inr (since, waits, long, level) ↦
              let now = ap (λ d. d.confirmed) (active-step t before) ∙ level in
              inr (
                since,
                long,
                (
                  sym now,
                  inr (
                      subst (λ l. Steady config role l since ts) (sym now)
                        (pending-Steady ts p (reading config t role) since start waits)),
                ),
              )
        ]
