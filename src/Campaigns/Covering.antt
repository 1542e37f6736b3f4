-- ===== src/Campaigns/Covering.antt =====
-- cloudmark/campaigns.py: the loop over the attempts counts the day of every valid one.
use cloud_mark.Prelude.{
  Bool, true, ◌||◌, Option, some, List, [], ◌∷◌, ◌++◌, String, str_eq_refl, any, ◌≡◌, refl, arith,
  ◌∙◌, sym, subst, All, Bool-cases, inl, inr,
}
use cloud_mark.Python.{Fields, ok, Platform, >>=-eq-ok, ok_injective, get_field}
use cloud_mark.Store.Schema.{Run}
use cloud_mark.Campaigns.Attempts.{attempt_contract_status, valid_window_day}
use cloud_mark.Campaigns.Tally.{Tally, tally, tally_run, has_day, set_default, note_day}

any-append :
    (day : String) (days : List (String × String)) (entry : String × String)
    → any (has_day day) (days ++ entry ∷ []) ≡ (any (has_day day) days || has_day day entry)
any-append day [] entry = ground arith
any-append day (d ∷ days) entry = ground (arith, any-append day days entry)

set_default-keeps :
    (day new run_id : String) (days : List (String × String))
    → any (has_day day) days ≡ true
    → any (has_day day) (set_default new run_id days) ≡ true
unfolding set_default
set_default-keeps day new run_id days h = elim (Bool-cases (any (has_day new) days)) [
  | inl there ↦ rw there h
  | inr absent ↦ rw (absent, any-append day days (new, run_id), h) refl
]

set_default-counts :
    (day run_id : String) (days : List (String × String))
    → any (has_day day) (set_default day run_id days) ≡ true
unfolding set_default
set_default-counts day run_id days = elim (Bool-cases (any (has_day day) days)) [
  | inl there ↦ rw there there
  | inr absent ↦ rw (absent, any-append day days (day, run_id), str_eq_refl day) (ground arith)
]

note_day-keeps :
    (day : String) (valid : Bool) (window_day : Option String) (run_id : String)
    (days : List (String × String))
    → any (has_day day) days ≡ true
    → any (has_day day) (note_day valid window_day run_id days) ≡ true
note_day-keeps day true (some new) run_id days h = set_default-keeps day new run_id days h
note_day-keeps day _ _ run_id days h = h

module _ (py : Platform) (contract : Fields) where
  -- The day of the attempt, if it meets the contract, is one of the days.
  abbrev pub IsCovered : List (String × String) → Run → Type 0
  IsCovered days r =
      (reason day : String)
      → attempt_contract_status py r contract ≡ ok (true, reason)
      → valid_window_day py (get_field "campaign_window_day" r.request) ≡ some day
      → any (has_day day) days ≡ true

  tally_run-keeps :
      (day : String) (t : Tally) (r : Run) (verdict : Bool × String)
      → any (has_day day) t.valid_days ≡ true
      → any (has_day day) (tally_run py t r verdict).valid_days ≡ true
  unfolding tally_run
  tally_run-keeps day t r (valid, reason) h =
      note_day-keeps day valid (valid_window_day py (get_field "campaign_window_day" r.request))
        r.id t.valid_days h

  tally_run-counts :
      (day reason : String) (t : Tally) (r : Run)
      → valid_window_day py (get_field "campaign_window_day" r.request) ≡ some day
      → any (has_day day) (tally_run py t r (true, reason)).valid_days ≡ true
  unfolding tally_run
  tally_run-counts day reason t r dated = rw dated (set_default-counts day r.id t.valid_days)

  tally-keeps :
      (day : String) (runs : List Run) (t u : Tally)
      → tally py contract t runs ≡ ok u
      → any (has_day day) t.valid_days ≡ true
      → any (has_day day) u.valid_days ≡ true
  unfolding tally
  tally-keeps day [] t u e h = subst (λ v. any (has_day day) v.valid_days ≡ true) (ok_injective e) h
  tally-keeps day (r ∷ runs) t u e h =
      let (verdict, _, rest) = >>=-eq-ok (attempt_contract_status py r contract) _ e in
      tally-keeps day runs (tally_run py t r verdict) u rest (tally_run-keeps day t r verdict h)

  -- The day of every attempt that meets the contract is counted.
  pub tally-IsCovered :
      (runs : List Run) (t u : Tally)
      → tally py contract t runs ≡ ok u
      → All (IsCovered u.valid_days) runs
  unfolding tally
  tally-IsCovered [] t u e = tt
  tally-IsCovered (r ∷ runs) t u e =
      let (verdict, status, rest) = >>=-eq-ok (attempt_contract_status py r contract) _ e in
      (
        λ reason day valid dated.
            let same : verdict ≡ (true, reason) = ok_injective (sym status ∙ valid) in
            let counted =
              subst (λ v. any (has_day day) (tally_run py t r v).valid_days ≡ true) (sym same)
                (tally_run-counts day reason t r dated) in
            tally-keeps day runs (tally_run py t r verdict) u rest counted,
        tally-IsCovered runs (tally_run py t r verdict) u rest,
      )

  -- Days that count whatever the first ones do.
  pub All-IsCovered :
      (days more : List (String × String)) (runs : List Run)
      → ((day : String) → any (has_day day) more ≡ any (has_day day) days)
      → All (IsCovered days) runs
      → All (IsCovered more) runs
  All-IsCovered days more [] same hs = tt
  All-IsCovered days more (r ∷ runs) same (h, hs) = (
    λ reason day valid dated. same day ∙ h reason day valid dated,
    All-IsCovered days more runs same hs,
  )
