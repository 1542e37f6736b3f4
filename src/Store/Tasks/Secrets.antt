-- ===== src/Store/Tasks/Secrets.antt =====
-- Which secrets the Controller holds in memory.
use cloud_mark.Prelude.{
  inl, inr, str_eq_sym, Bool, true, some, List, [], ◌∷◌, ◌++◌, String, ◌≡◌, refl, arith,
  if◌then◌else◌, Bool-cases, select, select_one, update, written, select_one-update,
  select_one-append, All, any, str_eq, str_eq_iff, str_eq_refl, select_one-key,
}
use cloud_mark.Store.Schema.{is_active, Task, Secret}
use cloud_mark.Store.Tasks.{has_id, remove_secrets}
use cloud_mark.Store.Secrets.{remove_secret, set_secret}

-- A task of that id is there, and is still queued or running.
pub record IsHeld (tasks : List Task) (task_id : String) : Type 0 where
  pub task : Task
  pub found : select_one (has_id task_id) tasks ≡ some task
  pub active : is_active task.status ≡ true

-- Each secret in memory belongs to a task that still needs it.
abbrev pub NoneStale : List Task → List (String × Secret) → Type 0
NoneStale tasks secrets = All (λ s. IsHeld tasks s.0) secrets

pub IsHeld-append : (xs ys : List Task) (k : String) → IsHeld xs k → IsHeld (xs ++ ys) k
IsHeld-append xs ys k h = record {
  task = h.task;
  found = select_one-append (has_id k) xs ys h.task h.found;
  active = h.active;
}

pub NoneStale-append :
    (xs ys : List Task) (secrets : List (String × Secret))
    → NoneStale xs secrets
    → NoneStale (xs ++ ys) secrets
NoneStale-append xs ys [] h = tt
NoneStale-append xs ys (s ∷ rest) (h, hs) =
    (IsHeld-append xs ys s.0 h, NoneStale-append xs ys rest hs)

-- An update keeps a secret's task alive if it keeps the row that it may hit.
pub IsHeld-update :
    (test : Task → Bool) (write : Task → Task) (xs : List Task) (k : String)
    → ((t : Task) → (write t).id ≡ t.id)
    → ((t : Task) → str_eq t.id k ≡ true → test t ≡ true → is_active (write t).status ≡ true)
    → IsHeld xs k
    → IsHeld (update test write xs) k
IsHeld-update test write xs k keeps alive h = record {
  task = written test write h.task;
  found = select_one-update (has_id k) test write xs h.task (λ y. rw keeps) h.found;
  active = elim (Bool-cases (test h.task)) [
    | inl hit ↦
        rw hit
          (alive h.task (rw (select_one-key (λ t. t.id) k xs h.task h.found) (str_eq_refl k)) hit)
    | inr miss ↦ rw miss h.active
  ];
}

pub NoneStale-update :
    (test : Task → Bool) (write : Task → Task) (xs : List Task) (secrets : List (String × Secret))
    → ((t : Task) → (write t).id ≡ t.id)
    → ((t : Task) → test t ≡ true → is_active (write t).status ≡ true)
    → NoneStale xs secrets
    → NoneStale (update test write xs) secrets
NoneStale-update test write xs [] keeps alive h = tt
NoneStale-update test write xs (s ∷ rest) keeps alive (h, hs) = (
  IsHeld-update test write xs s.0 keeps (λ t _. alive t) h,
  NoneStale-update test write xs rest keeps alive hs,
)

-- An update of one task's row, after which that task's secret is dropped.
pub NoneStale-update-remove :
    (task_id : String) (test : Task → Bool) (write : Task → Task) (xs : List Task)
    (secrets : List (String × Secret))
    → ((t : Task) → (write t).id ≡ t.id)
    → ((t : Task) → test t ≡ true → str_eq t.id task_id ≡ true)
    → NoneStale xs secrets
    → NoneStale (update test write xs) (remove_secret task_id secrets)
unfolding remove_secret
NoneStale-update-remove task_id test write xs [] keeps own h = tt
NoneStale-update-remove task_id test write xs ((k, s) ∷ rest) keeps own (h, hs) =
    let later = NoneStale-update-remove task_id test write xs rest keeps own hs in
    elim (Bool-cases (str_eq k task_id)) [
      | inl dropped ↦ rw dropped later
      | inr kept ↦ rw kept (
        IsHeld-update test write xs k keeps
            (λ t at_k hit.
              ground (arith, own t hit, str_eq_iff t.id task_id, str_eq_iff t.id k, str_eq_refl k))
            h,
        later,
      )
    ]

-- Dropping a secret leaves the others.
pub NoneStale-remove :
    (task_id : String) (xs : List Task) (secrets : List (String × Secret))
    → NoneStale xs secrets
    → NoneStale xs (remove_secret task_id secrets)
unfolding remove_secret
NoneStale-remove task_id xs [] h = tt
NoneStale-remove task_id xs ((k, s) ∷ rest) (h, hs) =
    ground (arith, NoneStale-remove task_id xs rest hs)

pub NoneStale-set :
    (task_id : String) (s : Secret) (xs : List Task) (secrets : List (String × Secret))
    → IsHeld xs task_id
    → NoneStale xs secrets
    → NoneStale xs (set_secret task_id s secrets)
unfolding set_secret
NoneStale-set task_id s xs secrets h hs = (h, NoneStale-remove task_id xs secrets hs)

any-select :
    (k : String) (test : Task → Bool) (xs : List Task) (t : Task)
    → select_one (has_id k) xs ≡ some t
    → test t ≡ true
    → any (has_id k) (select test xs) ≡ true
unfolding select select_one
any-select k test [] t e h = cc
any-select k test (x ∷ xs) t e h = ground (arith, any-select k test xs t)

remove_secrets-cons :
    (ts : List Task) (k : String) (s : Secret) (rest : List (String × Secret))
    → remove_secrets ts ((k, s) ∷ rest)
      ≡ (if any (has_id k) ts then remove_secrets ts rest else (k, s) ∷ remove_secrets ts rest)
unfolding remove_secrets remove_secret
remove_secrets-cons [] k s rest = refl
remove_secrets-cons (t ∷ ts) k s rest = elim (Bool-cases (str_eq k t.id)) [
  | inl hit ↦ rw (hit, str_eq_sym t.id k, hit)
  | inr miss ↦
      rw (miss, str_eq_sym t.id k, miss) (remove_secrets-cons ts k s (remove_secret t.id rest))
]

remove_secrets-nil : (ts : List Task) → remove_secrets ts [] ≡ []
unfolding remove_secrets remove_secret
remove_secrets-nil [] = refl
remove_secrets-nil (t ∷ ts) = remove_secrets-nil ts

-- The tasks that an update hits lose their secrets, whatever becomes of them.
pub NoneStale-update-remove_secrets :
    (test : Task → Bool) (write : Task → Task) (xs : List Task) (secrets : List (String × Secret))
    → ((t : Task) → (write t).id ≡ t.id)
    → NoneStale xs secrets
    → NoneStale (update test write xs) (remove_secrets (select test xs) secrets)
NoneStale-update-remove_secrets test write xs [] keeps h =
    rw (remove_secrets-nil (select test xs)) tt
NoneStale-update-remove_secrets test write xs ((k, s) ∷ rest) keeps (h, hs) =
    let later = NoneStale-update-remove_secrets test write xs rest keeps hs in
    rw (remove_secrets-cons (select test xs) k s rest)
      (elim (Bool-cases (any (has_id k) (select test xs))) [
        | inl dropped ↦ rw dropped later
        | inr kept ↦ rw kept (
          record {
            task = h.task;
            found =
                rw (select_one-update (has_id k) test write xs h.task (λ y. rw keeps) h.found)
                  (ground (arith, any-select k test xs h.task h.found));
            active = h.active;
          },
          later,
        )
      ])
