-- ===== src/Suitability/Builders.antt =====
-- cloudmark/suitability.py: what `_provider_observations` keeps true of its samples.
use cloud_mark.Prelude.{
  either, ◌&&◌, ℕ, true, false, Option, none, some, List, [], ◌∷◌, ◌++◌, String, length, ◌≡◌, refl,
  All, arith, inl, inr, Bool-cases, length-append,
}
use cloud_mark.Suitability.Runs.{is_one_of, insert_id, union_ids}
use cloud_mark.Suitability.Cohorts.{ContractKey, contract_texts, texts_eq}
use cloud_mark.Suitability.Provenance.{
  Sample, IsChecked, IsVouched-new, IsVouched-kept, VouchedBy, HasDay, HasDay-last, day_of-IsOn,
  All-HasDay-append, insert_day-HasDay, All-more, run_ids_of, values_of, run_ids_of-append,
  values_of-append,
}
use cloud_mark.Suitability.Collecting.{
  Builder, Verified, empty_builder, day_of, note_time, add_sample, update_builder,
}
use cloud_mark.Suitability.Distinct.{
  NoRepeats, NoRepeatedDays, NoRepeats-append, NoRepeats-union_ids, NoRepeatedDays-insert_day,
  append_same, All-union_ids,
}

-- The samples of one contract: one value for each of some different runs, of different targets of the
-- group, on different days. Each is the value of a sample that was taken from such a run, each day is
-- one on which a sample was observed, and the builder's flags vouch for every sample, also for those
-- of a run that had one already.
pub record IsCounted (IsTaken : Sample → Type 0) (peer_ids : List String) (b : Builder)
    : Type 0 where
  pub one_value_each : length b.run_ids ≡ length b.values
  pub different_runs : NoRepeats b.run_ids
  pub seen : (s : String) → is_one_of b.seen_runs s ≡ is_one_of b.run_ids s
  pub different_targets : NoRepeats b.target_ids
  pub targets_of_group : All (λ id. is_one_of peer_ids id ≡ true) b.target_ids
  pub different_days : NoRepeatedDays b.windows
  pub samples : List Sample
  pub repeated : List Sample
  pub sampled_runs : b.run_ids ≡ run_ids_of samples
  pub sampled_values : b.values ≡ values_of samples
  pub sampled_days : All (HasDay samples) b.windows
  pub taken : All IsTaken samples
  pub taken_again : All IsTaken repeated
  pub vouched : All (VouchedBy b) samples
  pub vouched_again : All (VouchedBy b) repeated

-- What the first lines of the loop's body make of the builder.
abbrev checked_with : List String → Verified → Builder → Builder
checked_with participating v b = record b {
  implementation_verified = b.implementation_verified && v.implementation;
  system_execution_verified = b.system_execution_verified && v.system_execution;
  storage_contract_verified = b.storage_contract_verified && v.storage;
  target_ids = union_ids b.target_ids participating;
}

abbrev counted_with : Sample → Builder → Builder
counted_with s b = record b {
  seen_runs = b.seen_runs ++ s.run.id ∷ [];
  values = b.values ++ s.item.value ∷ [];
  run_ids = b.run_ids ++ s.run.id ∷ [];
}

module _ (IsTaken : Sample → Type 0) (peer_ids : List String) where
  note_time-IsCounted :
      (o : Option ℕ) (b : Builder) (w : IsCounted IsTaken peer_ids b)
      → ((t : ℕ) → o ≡ some t → HasDay w.samples (day_of t))
      → IsCounted IsTaken peer_ids (note_time o b)
  note_time-IsCounted none b w on = w
  note_time-IsCounted (some t) b w on = record {
    one_value_each = w.one_value_each;
    different_runs = w.different_runs;
    seen = w.seen;
    different_targets = w.different_targets;
    targets_of_group = w.targets_of_group;
    different_days = NoRepeatedDays-insert_day (day_of t) b.windows w.different_days;
    samples = w.samples;
    repeated = w.repeated;
    sampled_runs = w.sampled_runs;
    sampled_values = w.sampled_values;
    sampled_days = insert_day-HasDay w.samples (day_of t) b.windows (on t refl) w.sampled_days;
    taken = w.taken;
    taken_again = w.taken_again;
    vouched = w.vouched;
    vouched_again = w.vouched_again;
  }

  module _ (participating : List String) (s : Sample) (b : Builder)
      (members : All (λ id. is_one_of peer_ids id ≡ true) participating) (is_taken : IsTaken s)
      (w : IsCounted IsTaken peer_ids b) where
    abbrev after : Builder
    after = checked_with participating s.verified b

    checked_after : IsChecked b after s
    checked_after = record { implementation = refl; execution = refl; storage = refl }

    targets : NoRepeats (union_ids b.target_ids participating)
    targets = NoRepeats-union_ids b.target_ids participating w.different_targets

    of_group : All (λ id. is_one_of peer_ids id ≡ true) (union_ids b.target_ids participating)
    of_group =
        All-union_ids (λ id. is_one_of peer_ids id ≡ true) b.target_ids participating
          w.targets_of_group members

    checked_with-IsCounted : IsCounted IsTaken peer_ids after
    checked_with-IsCounted = record {
      one_value_each = w.one_value_each;
      different_runs = w.different_runs;
      seen = w.seen;
      different_targets = targets;
      targets_of_group = of_group;
      different_days = w.different_days;
      samples = w.samples;
      repeated = w.repeated ++ s ∷ [];
      sampled_runs = w.sampled_runs;
      sampled_values = w.sampled_values;
      sampled_days = w.sampled_days;
      taken = w.taken;
      taken_again = All-more IsTaken w.repeated s w.taken_again is_taken;
      vouched = IsVouched-kept b after s w.samples checked_after w.vouched;
      vouched_again =
          All-more (VouchedBy after) w.repeated s
            (IsVouched-kept b after s w.repeated checked_after w.vouched_again)
            (IsVouched-new b after s checked_after);
    }

    counted_with-IsCounted :
        is_one_of b.seen_runs s.run.id ≡ false
        → (c : IsCounted IsTaken peer_ids (counted_with s after)) × ((t : ℕ)
            → s.item.observed_at ≡ some t
            → HasDay c.samples (day_of t))
    counted_with-IsCounted new = (
      record {
        one_value_each = omega (
          arith,
          length-append b.run_ids (s.run.id ∷ []),
          length-append b.values (s.item.value ∷ []),
          w.one_value_each,
        );
        different_runs =
            NoRepeats-append b.run_ids s.run.id (rw (← w.seen s.run.id) new) w.different_runs;
        seen = λ x. append_same s.run.id b.seen_runs b.run_ids w.seen x;
        different_targets = targets;
        targets_of_group = of_group;
        different_days = w.different_days;
        samples = w.samples ++ s ∷ [];
        repeated = w.repeated;
        sampled_runs = rw (w.sampled_runs, run_ids_of-append w.samples s) refl;
        sampled_values = rw (w.sampled_values, values_of-append w.samples s) refl;
        sampled_days = All-HasDay-append w.samples s b.windows w.sampled_days;
        taken = All-more IsTaken w.samples s w.taken is_taken;
        taken_again = w.taken_again;
        vouched =
            All-more (VouchedBy after) w.samples s
              (IsVouched-kept b after s w.samples checked_after w.vouched)
              (IsVouched-new b after s checked_after);
        vouched_again = IsVouched-kept b after s w.repeated checked_after w.vouched_again;
      },
      λ t seen. HasDay-last w.samples s (day_of t) (rw seen (day_of-IsOn t)),
    )

    pub add_sample-IsCounted :
        IsCounted IsTaken peer_ids (add_sample s.run.id participating s.verified s.item b)
    unfolding add_sample insert_id
    add_sample-IsCounted = elim (Bool-cases (is_one_of b.seen_runs s.run.id)) [
      | inl found ↦ rw found checked_with-IsCounted
      | inr new ↦ rw new (
          note_time-IsCounted s.item.observed_at (counted_with s after)
            (counted_with-IsCounted new).0 (counted_with-IsCounted new).1)
    ]

module _ (IsTaken : Sample → Type 0) (peer_ids : List String) where
  abbrev pub EachCounted : List (ContractKey × Builder) → Type 0
  EachCounted builders = All (λ kb. IsCounted IsTaken peer_ids kb.1) builders

  empty-IsCounted : IsCounted IsTaken peer_ids empty_builder
  empty-IsCounted = record {
    one_value_each = refl;
    different_runs = tt;
    seen = λ s. refl;
    different_targets = tt;
    targets_of_group = tt;
    different_days = tt;
    samples = [];
    repeated = [];
    sampled_runs = refl;
    sampled_values = refl;
    sampled_days = tt;
    taken = tt;
    taken_again = tt;
    vouched = tt;
    vouched_again = tt;
  }

  update_builder-EachCounted :
      (key : ContractKey) (write : Builder → Builder) (builders : List (ContractKey × Builder))
      → ((b : Builder) → IsCounted IsTaken peer_ids b → IsCounted IsTaken peer_ids (write b))
      → EachCounted builders
      → EachCounted (update_builder key write builders)
  unfolding update_builder
  update_builder-EachCounted key write [] keeps ws = (keeps empty_builder empty-IsCounted, tt)
  update_builder-EachCounted key write ((k, b) ∷ rest) keeps (w, ws) =
      either EachCounted (texts_eq (contract_texts k) (contract_texts key)) (keeps b w, ws)
        (w, update_builder-EachCounted key write rest keeps ws)

  pub add_sample-EachCounted :
      (key : ContractKey) (participating : List String) (s : Sample)
      (builders : List (ContractKey × Builder))
      → All (λ id. is_one_of peer_ids id ≡ true) participating
      → IsTaken s
      → EachCounted builders
      → EachCounted
          (update_builder key (add_sample s.run.id participating s.verified s.item) builders)
  add_sample-EachCounted key participating s builders members is_taken =
      update_builder-EachCounted key (add_sample s.run.id participating s.verified s.item) builders
        (λ b w. add_sample-IsCounted IsTaken peer_ids participating s b members is_taken w)
