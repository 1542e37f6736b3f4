-- ===== src/Storage/Counting.antt =====
-- cloudmark/storage_campaigns.py: what the loop over the attempts of a storage campaign keeps of them.
use cloud_mark.Prelude.{
  true, false, not, ◌||◌, ◌&&◌, Option, none, some, List, [], ◌∷◌, ◌++◌, String, str_eq, any,
  str_eq_refl, ◌≡◌, refl, arith, ◌∙◌, sym, ap, subst, All, Bool-cases, inl, inr,
}
use cloud_mark.Python.{Fields, ok, Platform, >>=-eq-ok, ok_injective, get_field}
use cloud_mark.Store.Schema.{Run}
use cloud_mark.Campaigns.Attempts.{valid_window_day}
use cloud_mark.Campaigns.Tally.{Tally, has_day}
use cloud_mark.Campaigns.Active.{is_idle, run_is_live, is_unnamed}
use cloud_mark.Storage.Windows.{Window}
use cloud_mark.Storage.Projection.{
  count_attempt, count_attempts, storage_attempt_status, new_day, add_day, is_counted_day,
}

any-append :
    (day : String) (days : List (String × String)) (entry : String × String)
    → any (has_day day) (days ++ entry ∷ []) ≡ (any (has_day day) days || has_day day entry)
any-append day [] entry = ground arith
any-append day (d ∷ days) entry = ground (arith, any-append day days entry)

count_attempt-idle :
    (declared : Option String) (t : Tally) (r : Run) (w : Window)
    → is_unnamed r ≡ false
    → is_idle (count_attempt declared t r w).active_run_id
      ≡ (not (run_is_live r) && is_idle t.active_run_id)
unfolding count_attempt
count_attempt-idle declared t r w named = ground arith

add_day-keeps :
    (day : String) (new : Option String) (run_id : String) (days : List (String × String))
    → is_counted_day day days ≡ true
    → is_counted_day day (add_day new run_id days) ≡ true
add_day-keeps day none run_id days h = h
add_day-keeps day (some d) run_id days h = ground (arith, any-append day days (d, run_id), h)

count_attempt-keeps :
    (day : String) (declared : Option String) (t : Tally) (r : Run) (w : Window)
    → is_counted_day day t.valid_days ≡ true
    → is_counted_day day (count_attempt declared t r w).valid_days ≡ true
unfolding count_attempt
count_attempt-keeps day declared t r w h =
    add_day-keeps day (new_day w t.valid_days) r.id t.valid_days h

add_day-counts :
    (day run_id : String) (w : Window) (days : List (String × String))
    → w.valid ≡ true
    → w.window_day ≡ some day
    → str_eq day "" ≡ false
    → is_counted_day day (add_day (new_day w days) run_id days) ≡ true
add_day-counts day run_id w days valid dated named = elim (Bool-cases (is_counted_day day days)) [
  | inl there ↦ add_day-keeps day (new_day w days) run_id days there
  | inr new ↦
      let fresh : new_day w days ≡ some day = rw (valid, dated, named, new) refl in
      rw (fresh, any-append day days (day, run_id), str_eq_refl day) (ground arith)
]

count_attempt-counts :
    (day : String) (declared : Option String) (t : Tally) (r : Run) (w : Window)
    → w.valid ≡ true
    → w.window_day ≡ some day
    → str_eq day "" ≡ false
    → is_counted_day day (count_attempt declared t r w).valid_days ≡ true
unfolding count_attempt
count_attempt-counts day declared t r w = add_day-counts day r.id w t.valid_days

module _ (py : Platform) (contract : Fields) where
  -- The loop is idle exactly if it was and no attempt is queued or running.
  pub count_attempts-idle :
      (runs : List Run) (t u : Tally)
      → any is_unnamed runs ≡ false
      → count_attempts py contract t runs ≡ ok u
      → is_idle u.active_run_id ≡ (not (any run_is_live runs) && is_idle t.active_run_id)
  unfolding count_attempts
  count_attempts-idle [] t u named e = ap (λ v. is_idle v.active_run_id) (sym (ok_injective e))
  count_attempts-idle (r ∷ runs) t u named e =
      let (w, _, rest) = >>=-eq-ok (storage_attempt_status py r contract) _ e in
      let declared = valid_window_day py (get_field "campaign_window_day" r.request) in
      ground (
        arith,
        count_attempt-idle declared t r w (ground arith),
        count_attempts-idle runs (count_attempt declared t r w) u (ground arith) rest,
      )

  pub count_attempts-keeps :
      (day : String) (runs : List Run) (t u : Tally)
      → count_attempts py contract t runs ≡ ok u
      → is_counted_day day t.valid_days ≡ true
      → is_counted_day day u.valid_days ≡ true
  unfolding count_attempts
  count_attempts-keeps day [] t u e h =
      subst (λ v. is_counted_day day v.valid_days ≡ true) (ok_injective e) h
  count_attempts-keeps day (r ∷ runs) t u e h =
      let (w, _, rest) = >>=-eq-ok (storage_attempt_status py r contract) _ e in
      let declared = valid_window_day py (get_field "campaign_window_day" r.request) in
      count_attempts-keeps day runs (count_attempt declared t r w) u rest
        (count_attempt-keeps day declared t r w h)

  -- The day of the attempt, if it is valid, is one of the days.
  abbrev pub IsCovered : List (String × String) → Run → Type 0
  IsCovered days r =
      (w : Window) (day : String)
      → storage_attempt_status py r contract ≡ ok w
      → w.valid ≡ true
      → w.window_day ≡ some day
      → str_eq day "" ≡ false
      → is_counted_day day days ≡ true

  -- The day of every valid attempt is counted.
  pub count_attempts-IsCovered :
      (runs : List Run) (t u : Tally)
      → count_attempts py contract t runs ≡ ok u
      → All (IsCovered u.valid_days) runs
  unfolding count_attempts
  count_attempts-IsCovered [] t u e = tt
  count_attempts-IsCovered (r ∷ runs) t u e =
      let (w, status, rest) = >>=-eq-ok (storage_attempt_status py r contract) _ e in
      let declared = valid_window_day py (get_field "campaign_window_day" r.request) in
      let next = count_attempt declared t r w in
      (
        λ v day is_v valid dated named.
            let same : w ≡ v = ok_injective (sym status ∙ is_v) in
            count_attempts-keeps day runs next u rest (
              count_attempt-counts day declared t r w (ap (λ x. x.valid) same ∙ valid)
                (ap (λ x. x.window_day) same ∙ dated) named),
        count_attempts-IsCovered runs next u rest,
      )
