-- ===== src/Remote/Planning.antt =====
-- The default time limits and step counts of the benchmarks that an Agent runs.
use cloud_mark.Prelude.{
  ℕ, Bool, true, some, List, [], ◌∷◌, String, str_eq, ◌&&◌, ◌≡◌, ◌≤◌, refl, arith, inl, inr, leb,
  ◌+◌, Bool-cases, Option-cases, select_one, subst,
}
use cloud_mark.Python.{ok, >>=-eq-ok, ok_injective}
use cloud_mark.Profiles.{Profile}
use cloud_mark.Remote.{
  Suite, compute, memory, storage, security, parse_suite, profiles_of, find_profile, known_profile,
  job_seconds, timeout_of, steps_of, remote_default_timeout, remote_total_steps, is_named,
}

-- The time limit leaves the jobs two minutes at least, and is one that the API accepts.
abbrev limit_fits : Suite → Profile → Bool
limit_fits suite p =
    leb (job_seconds p.jobs + 120) (timeout_of suite p)
    && (leb 30 (timeout_of suite p)
        && (leb (timeout_of suite p) 43_200 && leb 1 (steps_of suite p)))

abbrev all_fit : Suite → List Profile → Bool
all_fit suite [] = true
all_fit suite (p ∷ ps) = limit_fits suite p && all_fit suite ps

suites_fit : (suite : Suite) → all_fit suite (profiles_of suite) ≡ true
unfolding profiles_of job_seconds timeout_of steps_of str_eq
suites_fit compute = refl
suites_fit memory = refl
suites_fit storage = refl
suites_fit security = refl

split_and : (a b : Bool) → (a && b) ≡ true → (a ≡ true) × (b ≡ true)
split_and a b e = (ground (arith, e), ground (arith, e))

found_fits :
    (suite : Suite) (name : String) (ps : List Profile) (p : Profile)
    → all_fit suite ps ≡ true
    → select_one (is_named name) ps ≡ some p
    → limit_fits suite p ≡ true
unfolding select_one
found_fits suite name [] p all e = cc
found_fits suite name (q ∷ ps) p all e =
    let (fits, rest) = split_and (limit_fits suite q) (all_fit suite ps) all in
    elim (Bool-cases (is_named name q)) [
      | inl here ↦ subst (λ x. limit_fits suite x ≡ true) (ground (arith, e, here)) fits
      | inr later ↦ found_fits suite name ps p rest (ground (arith, e, later))
    ]

known_profile-eq :
    (suite : Suite) (name : String) (p : Profile)
    → known_profile suite name ≡ ok p
    → find_profile suite name ≡ some p
unfolding known_profile
known_profile-eq suite name p e = elim (Option-cases (find_profile suite name)) [
  | inl missing ↦ let never : ⊥ = ground (arith, e, missing) in absurd never
  | inr (q, found) ↦ ground (arith, e, found)
]

-- The limits and the steps of a profile of the suite.
pub record IsPlanned (suite_name profile_name : String) (limit : ℕ) : Type 0 where
  pub suite : Suite
  pub suite_known : parse_suite suite_name ≡ ok suite
  pub profile : Profile
  pub installed : find_profile suite profile_name ≡ some profile
  pub covers_jobs : job_seconds profile.jobs + 120 ≤ limit
  pub accepted_below : 30 ≤ limit
  pub accepted_above : limit ≤ 43_200
  pub steps : ℕ
  pub planned_steps : remote_total_steps suite_name profile_name ≡ ok steps
  pub some_steps : 1 ≤ steps

total_steps :
    (suite_name profile_name : String) (suite : Suite) (p : Profile)
    → parse_suite suite_name ≡ ok suite
    → known_profile suite profile_name ≡ ok p
    → remote_total_steps suite_name profile_name ≡ ok (steps_of suite p)
unfolding remote_total_steps
total_steps suite_name profile_name suite p known found = rw (known, found) refl

-- A default time limit belongs to an installed profile of a known suite; it exceeds the summed times of
-- the profile's jobs by two minutes at least, lies within the bounds that the API accepts, and the
-- profile has at least one step.
pub remote_default_timeout-IsPlanned :
    (suite_name profile_name : String) (limit : ℕ)
    → remote_default_timeout suite_name profile_name ≡ ok limit
    → IsPlanned suite_name profile_name limit
unfolding remote_default_timeout find_profile
remote_default_timeout-IsPlanned suite_name profile_name limit e =
    let (suite, known, e1) = >>=-eq-ok (parse_suite suite_name) _ e in
    let (p, found, e2) = >>=-eq-ok (known_profile suite profile_name) _ e1 in
    let installed = known_profile-eq suite profile_name p found in
    let fits = found_fits suite profile_name (profiles_of suite) p (suites_fit suite) installed in
    let limit_eq : timeout_of suite p ≡ limit = ok_injective e2 in
    record {
      suite = suite;
      suite_known = known;
      profile = p;
      installed = installed;
      covers_jobs = ground (arith, fits, limit_eq);
      accepted_below = ground (arith, fits, limit_eq);
      accepted_above = ground (arith, fits, limit_eq);
      steps = steps_of suite p;
      planned_steps = total_steps suite_name profile_name suite p known found;
      some_steps = ground (arith, fits);
    }
