-- ===== src/Release/Audit/Laws.antt =====
-- When the release age check of hack/check-go-release-age/main.go passes, and how it fails.
use mathlib.Core.List.{Permᴰ}
use mathlib.Core.List.Permᴰ
use garlic.Common.{
  ℕ, ◌+◌, ◌≤◌, ◌≡◌, ◌↔◌, ◌⊎◌, inl, inr, refl, true, List, [], ◌∷◌, ltb, arith, Bool-cases,
  Sum-cases, All, All-perm,
}
use garlic.Release.Text.{Text}
use garlic.Release.Dates.{Moment}
use garlic.Release.Pins.{ModulePin, parse_go_sum}
use garlic.Release.Allowlist.{AllowlistEntry, Warning, load_allowlist, matches}
use garlic.Release.Lookup.{ProxyInfo, LookupError, fetch_info}
use garlic.Release.Audit.{
  Violation, record_result, fetch_violations, filtered, verdict, World, audit, run, exit_code,
}

All-filtered :
    (P : ModulePin → Type 0) (allow : List AllowlistEntry) (now : Moment) (ps : List ModulePin)
    → All P (filtered allow now ps) ↔ All (λ p. (matches allow p now ≡ true) ⊎ P p) ps
unfolding filtered
All-filtered P allow now [] = (λ h. h, λ h. h)
All-filtered P allow now (p ∷ ps) =
    let (down, up) = All-filtered P allow now ps in
    elim (Bool-cases (matches allow p now)) [
      | inl allowed ↦ rw allowed (λ h. (inl refl, down h), λ h. up h.1)
      | inr audited ↦
          rw audited
            (λ h. (inr h.0, down h.1), λ h. (elim h.0 [ inl e ↦ absurd (cc) | inr q ↦ q ], up h.1))
    ]

module _ (fetch : ModulePin → LookupError ⊎ ProxyInfo) (now : Moment) (min_age : ℕ) where
  abbrev pub LookedUp : ModulePin → Type 0
  LookedUp p = (info : ProxyInfo) × (fetch p ≡ inr info)

  abbrev pub IsOld : ModulePin → Type 0
  IsOld p = (info : ProxyInfo) × (fetch p ≡ inr info) × (info.time + min_age ≤ now)

  errs-nil_iff :
      (ps : List ModulePin) → ((fetch_violations fetch now min_age ps).errs ≡ []) ↔ All LookedUp ps
  unfolding fetch_violations record_result
  errs-nil_iff [] = (λ h. tt, λ h. refl)
  errs-nil_iff (p ∷ ps) =
      let (down, up) = errs-nil_iff ps in
      elim (Sum-cases (fetch p)) [
        | inl (e, failed) ↦ rw failed (λ h. cc, λ h. cc (h.0.1))
        | inr (info, ok) ↦ elim (Bool-cases (ltb now (info.time + min_age))) [
          | inl young ↦ rw (ok, young) (λ h. ((info, refl), down h), λ h. up h.1)
          | inr old ↦ rw (ok, old) (λ h. ((info, refl), down h), λ h. up h.1)
        ]
      ]

  none-nil_iff :
      (ps : List ModulePin)
      → (((fetch_violations fetch now min_age ps).errs ≡ [])
          × ((fetch_violations fetch now min_age ps).violations ≡ []))
        ↔ All IsOld ps
  unfolding fetch_violations record_result
  none-nil_iff [] = (λ h. tt, λ h. (refl, refl))
  none-nil_iff (p ∷ ps) =
      let (down, up) = none-nil_iff ps in
      elim (Sum-cases (fetch p)) [
        | inl (e, failed) ↦ rw failed (λ h. cc (h.0), λ h. cc (h.0.1))
        | inr (info, ok) ↦ elim (Bool-cases (ltb now (info.time + min_age))) [
          | inl young ↦ rw (ok, young) (λ h. cc (h.1), λ ((other, same, le), h). ground arith)
          | inr old ↦ rw (ok, old) (λ h. ((info, refl, ground arith), down h), λ h. up h.1)
        ]
      ]

verdict_codes :
    (errs : List (ModulePin × LookupError)) (vs : List Violation)
    → ((exit_code (verdict errs vs) ≡ 0) ↔ ((errs ≡ []) × (vs ≡ [])))
      × ((exit_code (verdict errs vs) ≡ 1) ↔ ((errs ≡ []) × ((vs ≡ []) → ⊥)))
verdict_codes (e ∷ errs) vs =
    ((λ h. absurd (omega arith), λ h. cc (h.0)), (λ h. absurd (omega arith), λ h. cc (h.0)))
verdict_codes [] [] =
    ((λ h. (refl, refl), λ h. refl), (λ h. absurd (omega arith), λ h. absurd (h.1 refl)))
verdict_codes [] (v ∷ vs) =
    ((λ h. absurd (omega arith), λ h. cc (h.1)), (λ h. (refl, λ e. cc), λ h. refl))

All-order :
    (P : ModulePin → Type 0) (finished : List ModulePin → List ModulePin)
    → ((l : List ModulePin) → Permᴰ (finished l) l)
    → (l : List ModulePin) → All P (finished l) ↔ All P l
unfolding Permᴰ.symm
All-order P finished order l = (All-perm P (order l), All-perm P (Permᴰ.symm (order l)))

trans_iff : {P Q R : Type 0} → P ↔ Q → Q ↔ R → P ↔ R
trans_iff f g = (λ p. g.0 (f.0 p), λ r. f.1 (g.1 r))

-- The audit of the pins, in whatever order the lookups end.
module _ (w : World) (proxy : Text) (min_age : ℕ) (allow : List AllowlistEntry) where
  -- The allowlist lets the module through, or the proxy says when it was published.
  abbrev pub IsKnown : ModulePin → Type 0
  IsKnown p = (matches allow p w.now ≡ true) ⊎ LookedUp (fetch_info w.answer proxy) w.now min_age p

  -- The allowlist lets the module through, or it was published at least the minimum age ago.
  abbrev pub IsFine : ModulePin → Type 0
  IsFine p = (matches allow p w.now ≡ true) ⊎ IsOld (fetch_info w.answer proxy) w.now min_age p

  audit_codes :
      (pins : List ModulePin)
      → ((l : List ModulePin) → Permᴰ (w.finished l) l)
      → ((exit_code (audit w proxy min_age allow pins) ≡ 0) ↔ All IsFine pins)
        × ((exit_code (audit w proxy min_age allow pins) ≡ 1)
            ↔ (All IsKnown pins × (All IsFine pins → ⊥)))
  unfolding audit
  audit_codes pins order =
      let fetch = fetch_info w.answer proxy in
      let ps = filtered allow w.now pins in
      let looked = LookedUp fetch w.now min_age in
      let old = IsOld fetch w.now min_age in
      let found = fetch_violations fetch w.now min_age (w.finished ps) in
      let known : (found.errs ≡ []) ↔ All IsKnown pins =
        trans_iff (errs-nil_iff fetch w.now min_age (w.finished ps)) (
          trans_iff (All-order looked w.finished order ps)
            (All-filtered looked allow w.now pins)) in
      let fine : ((found.errs ≡ []) × (found.violations ≡ [])) ↔ All IsFine pins =
        trans_iff (none-nil_iff fetch w.now min_age (w.finished ps))
          (trans_iff (All-order old w.finished order ps) (All-filtered old allow w.now pins)) in
      let (zero_iff, one_iff) = verdict_codes found.errs found.violations in
      (
        trans_iff zero_iff fine,
        (
          λ h. let (e, v) = one_iff.0 h in (known.0 e, λ f. v (fine.1 f).1),
          λ (k, f). one_iff.1 (known.1 k, λ v. f (fine.0 (known.1 k, v))),
        ),
      )

  -- Where go.sum and the allowlist can be read and the lookups end in any order, the check exits with 0
  -- exactly if every pin is let through by the allowlist or was published at least the minimum age
  -- ago, and with 1 exactly if every other pin was looked up and some pin is too young.
  pub run-exit_code :
      (pins : List ModulePin) (warned : List Warning)
      → ((l : List ModulePin) → Permᴰ (w.finished l) l)
      → parse_go_sum w.go_sum ≡ inr pins
      → load_allowlist w.unmarshal w.loaded_at w.allowlist_file ≡ inr (allow, warned)
      → ((exit_code (run w proxy min_age) ≡ 0) ↔ All IsFine pins)
        × ((exit_code (run w proxy min_age) ≡ 1) ↔ (All IsKnown pins × (All IsFine pins → ⊥)))
  unfolding run
  run-exit_code pins warned order parsed loaded = rw (parsed, loaded) (audit_codes pins order)
