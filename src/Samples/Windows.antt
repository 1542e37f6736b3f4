-- ===== src/Samples/Windows.antt =====
-- Worked examples of a network campaign with one valid window.
use cloud_mark.Prelude.{All, select, none, some, [], ◌∷◌, ◌≡◌, ◌↔◌, refl, true, false, str_eq}
use cloud_mark.Python.{null, Fields, dict, str, bool, field, end, ok, raise, Result}
use cloud_mark.Store.Schema.{Run, Campaign, completed}
use cloud_mark.Store.Pairing.{SessionView}
use cloud_mark.Campaigns.Contract.{build_network_campaign_contract}
use cloud_mark.Campaigns.Projection.{Projection, Clock, project_network_campaign}
use cloud_mark.Campaigns.Dispatch.{MayDispatch, eligible-MayDispatch}
use cloud_mark.Campaigns.Covering.{IsCovered}
use cloud_mark.Campaigns.Tally.{sort_attempts, attempts_of}
use cloud_mark.Campaigns.Progress.{
  IsBackedByDays, IsProgress, project-IsBackedByDays, project-IsProgress,
}
use cloud_mark.Samples.{platform, target, generator, run}

abbrev view : SessionView
view = record {
  id = "s1";
  label = "pair";
  ready = true;
  created_at = 1;
  expires_at = "later";
  topology = field "scope" (str "cross-zone") (field "source" (str "operator") end);
  agents = target ∷ generator ∷ [];
}

abbrev fields_of : Result Fields → Fields
fields_of (ok fs) = fs
fields_of (raise e) = end

abbrev contract : Fields
contract = fields_of (build_network_campaign_contract platform view "network-peer-standard" 3)

abbrev campaign : Campaign
campaign = record {
  id = "c1";
  label = "weekly";
  status = "active";
  created_at = 2;
  target_windows = 3;
  contract = contract;
}

abbrev attempt : Run
attempt = record (run "r7" completed) {
  request = field "campaign_id" (str "c1") (
      field "campaign_contract_version" (str "network-campaign-v1") (
        field "confirm_network_load" (bool true) (
          field "confirm_campaign_window" (bool true) (
            field "session_id" (str "s1") (
              field "profile" (str "network-peer-standard")
                (field "campaign_window_day" (str "2026-01-02") end))))));
  result = some (
      dict (
        field "profile_version" (str "9.0") (
          field "methodology_version" (str "network-v9") (
            field "session" (dict (field "id" (str "s1") end)) (
              field "analysis"
                (dict (field "validity" (dict (field "comparison_eligible" (bool true) end)) end))
                end)))));
}

abbrev clock : Clock
clock = record { today = "2026-01-03"; tomorrow = "2026-01-04" }

-- What the projection of that campaign is.
abbrev projected : Projection
projected = record {
  status = "active";
  valid_windows = 1;
  target_windows = 3;
  remaining_windows = 2;
  days = ("2026-01-02", "r7") ∷ [];
  attempts = 1;
  failed_attempts = 0;
  active_run_id = none;
  next = record { eligible = true; reason_code = "ready-for-manual-dispatch"; earliest_at = none };
  window_number = 2;
  attempt_number = 2;
  window_day = "2026-01-03";
  summaries =
      (record {
        run_id = "r7";
        status = "completed";
        window_day = some "2026-01-02";
        attempt_number = null;
        window_number = null;
        valid_window = true;
        reason_code = "valid-window";
      })
      ∷ [];
  complete = false;
}

eligible-MayDispatch_example :
    ((projected.next.eligible ≡ true)
      ↔ MayDispatch platform campaign (some view) clock projected (attempt ∷ []))
    × All
        (IsCovered platform campaign.contract projected.days)
        (sort_attempts [] (attempts_of platform campaign.id (attempt ∷ [])))
unfolding project_network_campaign str_eq build_network_campaign_contract select
eligible-MayDispatch_example =
    eligible-MayDispatch platform campaign (some view) clock (attempt ∷ []) projected refl refl

project-IsBackedByDays_example : IsBackedByDays platform campaign (attempt ∷ []) projected
unfolding project_network_campaign str_eq build_network_campaign_contract select
project-IsBackedByDays_example =
    project-IsBackedByDays platform campaign (attempt ∷ []) (some view) clock projected refl

project-IsProgress_example : IsProgress campaign projected
unfolding str_eq project_network_campaign build_network_campaign_contract select
project-IsProgress_example =
    project-IsProgress platform campaign (attempt ∷ []) (some view) clock projected refl refl
