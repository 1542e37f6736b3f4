-- ===== src/Campaigns/Active.antt =====
-- cloudmark/campaigns.py: which attempt of a campaign is queued or running, and what the loop keeps of it.
use cloud_mark.Prelude.{
  Bool, true, false, not, ◌||◌, ◌&&◌, Option, none, some, List, [], ◌∷◌, String, str_eq, any, ◌≡◌,
  refl, arith, ◌∙◌, sym, ap,
}
use cloud_mark.Python.{Fields, ok, Platform, >>=-eq-ok, ok_injective, get_field}
use cloud_mark.Store.Schema.{Run, is_active}
use cloud_mark.Campaigns.Contract.{text_or}
use cloud_mark.Campaigns.Attempts.{attempt_contract_status}
use cloud_mark.Campaigns.Tally.{Tally, tally, tally_run, insert_attempt, sort_attempts, attempts_of}

-- No run id is kept: an empty one counts as none.
abbrev pub is_idle : Option String → Bool
is_idle none = true
is_idle (some id) = str_eq id ""

abbrev pub run_is_live : Run → Bool
run_is_live r = is_active r.status

-- A run without an id.
abbrev pub is_unnamed : Run → Bool
is_unnamed r = str_eq r.id ""

abbrev pub belongs_to : Platform → (campaign_id : String) → Run → Bool
belongs_to py campaign_id r = str_eq (text_or py "" (get_field "campaign_id" r.request)) campaign_id

any-insert_attempt :
    (test : Run → Bool) (r : Run) (xs : List Run)
    → any test (insert_attempt r xs) ≡ (test r || any test xs)
unfolding insert_attempt
any-insert_attempt test r [] = refl
any-insert_attempt test r (x ∷ xs) = ground (arith, any-insert_attempt test r xs)

any-sort_attempts :
    (test : Run → Bool) (sorted xs : List Run)
    → any test (sort_attempts sorted xs) ≡ (any test sorted || any test xs)
unfolding sort_attempts
any-sort_attempts test sorted [] = ground arith
any-sort_attempts test sorted (x ∷ xs) =
    ground
      (arith, any-sort_attempts test (insert_attempt x sorted) xs, any-insert_attempt test x sorted)

module _ (py : Platform) where
  any-attempts_of :
      (test : Run → Bool) (campaign_id : String) (runs : List Run)
      → any test (attempts_of py campaign_id runs)
        ≡ any (λ r. belongs_to py campaign_id r && test r) runs
  unfolding attempts_of
  any-attempts_of test campaign_id [] = refl
  any-attempts_of test campaign_id (r ∷ runs) =
      ground (arith, any-attempts_of test campaign_id runs)

  any-narrowed :
      (keep test : Run → Bool) (runs : List Run)
      → any test runs ≡ false
      → any (λ r. keep r && test r) runs ≡ false
  any-narrowed keep test [] e = refl
  any-narrowed keep test (r ∷ runs) e = ground (arith, any-narrowed keep test runs)

  pub any-attempts :
      (test : Run → Bool) (campaign_id : String) (runs : List Run)
      → any test (sort_attempts [] (attempts_of py campaign_id runs))
        ≡ any (λ r. belongs_to py campaign_id r && test r) runs
  any-attempts test campaign_id runs =
      any-sort_attempts test [] (attempts_of py campaign_id runs)
      ∙ any-attempts_of test campaign_id runs

  pub attempts-named :
      (campaign_id : String) (runs : List Run)
      → any is_unnamed runs ≡ false
      → any is_unnamed (sort_attempts [] (attempts_of py campaign_id runs)) ≡ false
  attempts-named campaign_id runs e =
      any-attempts is_unnamed campaign_id runs
      ∙ any-narrowed (belongs_to py campaign_id) is_unnamed runs e

  tally_run-idle :
      (t : Tally) (r : Run) (verdict : Bool × String)
      → is_unnamed r ≡ false
      → is_idle (tally_run py t r verdict).active_run_id
        ≡ (not (run_is_live r) && is_idle t.active_run_id)
  unfolding tally_run
  tally_run-idle t r (valid, reason) named = ground arith

  -- The loop is idle exactly if it was and no attempt is queued or running.
  pub tally-idle :
      (contract : Fields) (runs : List Run) (t u : Tally)
      → any is_unnamed runs ≡ false
      → tally py contract t runs ≡ ok u
      → is_idle u.active_run_id ≡ (not (any run_is_live runs) && is_idle t.active_run_id)
  unfolding tally
  tally-idle contract [] t u named e = ap (λ v. is_idle v.active_run_id) (sym (ok_injective e))
  tally-idle contract (r ∷ runs) t u named e =
      let (verdict, _, rest) = >>=-eq-ok (attempt_contract_status py r contract) _ e in
      ground (
        arith,
        tally_run-idle t r verdict (ground arith),
        tally-idle contract runs (tally_run py t r verdict) u (ground arith) rest,
      )
