-- ===== src/Base/Rounds.antt =====
-- `for (;;)` with returns inside: a round goes on or ends, and the loop runs on fuel.
use Prim.Native.Nat.{ℕ, zero, suc, ◌<◌}
use mathlib.Core.Path.{◌≡◌, refl, sym, ap, ◌∙◌}
use mathlib.Core.Option.{Option, none, some}
use mathlib.Core.Logic.{◌⊎◌, inl, inr}
use native.Mathlib.Omega.{arith}

pub data Round (S : Type 0) : Type 0 where
  again : S → Round S
  done : S → Round S

module _ {S : Type 0} (step : S → Round S) where
  -- `none` is no value of the program: the fuel ran out.
  unfoldable pub run : ℕ → S → Option S
  run zero s = none
  run (suc fuel) s = elim (step s) [ again t ↦ run fuel t | done t ↦ some t ]

  pub run_again : (fuel : ℕ) (s t : S) → step s ≡ again t → run (suc fuel) s ≡ run fuel t
  unfolding run
  run_again fuel s t e = rw (e, run)

  pub run_done : (fuel : ℕ) (s t : S) → step s ≡ done t → run (suc fuel) s ≡ some t
  unfolding run
  run_done fuel s t e = rw (e, run)

pub Round-cases : {S : Type 0} (r : Round S) → ((t : S) × (r ≡ again t)) ⊎ ((t : S) × (r ≡ done t))
Round-cases (again t) = inl (t, refl)
Round-cases (done t) = inr (t, refl)

module _ {S : Type 0} (step : S → Round S) (measure : S → ℕ)
    (falls : (s t : S) → step s ≡ again t → measure t < measure s) where
  -- With a measure that falls in each round, fuel above the measure is enough.
  pub run_total : (fuel : ℕ) (s : S) → measure s < fuel → (t : S) × (run step fuel s ≡ some t)
  unfolding run
  run_total zero s h = absurd (omega arith)
  run_total (suc fuel) s h = elim (Round-cases (step s)) [
    | inl (t, e) ↦
        let (r, f) = run_total fuel t (omega (arith, falls s t e)) in
        (r, run_again step fuel s t e ∙ f)
    | inr (t, e) ↦ (t, run_done step fuel s t e)
  ]

  -- More fuel gives the same end.
  pub run_enough :
      (fuel more : ℕ) (s : S)
      → measure s < fuel
      → measure s < more
      → run step fuel s ≡ run step more s
  unfolding run
  run_enough zero more s h k = absurd (omega arith)
  run_enough (suc fuel) zero s h k = absurd (omega arith)
  run_enough (suc fuel) (suc more) s h k = elim (Round-cases (step s)) [
    | inl (t, e) ↦
        run_again step fuel s t e
        ∙ run_enough fuel more t (omega (arith, falls s t e)) (omega (arith, falls s t e))
        ∙ sym (run_again step more s t e)
    | inr (t, e) ↦ run_done step fuel s t e ∙ sym (run_done step more s t e)
  ]

module _ {S : Type 0} (step : S → Round S) (P : S → Type 0)
    (keeps : (s t : S) → P s → (step s ≡ again t) ⊎ (step s ≡ done t) → P t) where
  -- What each round keeps holds at the end.
  pub run_inv : (fuel : ℕ) (s t : S) → P s → run step fuel s ≡ some t → P t
  unfolding run
  run_inv zero s t p e = absurd (cc e)
  run_inv (suc fuel) s t p e = elim (Round-cases (step s)) [
    | inl (u, f) ↦ run_inv fuel u t (keeps s u p (inl f)) (sym (run_again step fuel s u f) ∙ e)
    | inr (u, f) ↦ keeps s t p (inr (f ∙ cc (run_done step fuel s u f, e)))
  ]

abbrev pub map_round : {S T : Type 0} → (S → T) → Round S → Round T
map_round f (again s) = again (f s)
map_round f (done s) = done (f s)

round_state : {S : Type 0} → Round S → S
round_state (again s) = s
round_state (done s) = s

pub again-injective : {S : Type 0} {s t : S} → again s ≡ again t → s ≡ t
unfolding round_state
again-injective h = ap round_state h

pub done-injective : {S : Type 0} {s t : S} → done s ≡ done t → s ≡ t
unfolding round_state
done-injective h = ap round_state h

some_value : {S : Type 0} → S → Option S → S
some_value d none = d
some_value d (some s) = s

pub some_inj : {S : Type 0} {s t : S} → some s ≡ some t → s ≡ t
unfolding some_value
some_inj {s} h = ap (some_value s) h
