-- ===== src/Suitability/Requirements.antt =====
-- cloudmark/suitability.py: the gates of a workload, and the catalogue of workloads of
-- cloudmark/profiles.py.
use cloud_mark.Prelude.{Option, none, some, List, [], ◌∷◌, String, str_eq, if◌then◌else◌}
use cloud_mark.Suitability.Rules.{Requirement}
use cloud_mark.Suitability.Gates.{
  storage_backup_requirement, web_app_requirement, dev_test_requirement, database_requirement,
  network_requirement, big_data_requirement, ai_ml_requirement, containers_requirement,
  dr_requirement, vdi_requirement, media_requirement, enterprise_requirement,
}

-- SCENARIO_REQUIREMENTS[scenario]
unfoldable pub scenario_requirement : String → Option Requirement
unfolding storage_backup_requirement web_app_requirement dev_test_requirement database_requirement
    network_requirement big_data_requirement ai_ml_requirement containers_requirement dr_requirement
    vdi_requirement media_requirement enterprise_requirement
scenario_requirement scenario =
    if str_eq scenario "storage-backup"
    then some storage_backup_requirement
    else if str_eq scenario "web-app"
    then some web_app_requirement
    else if str_eq scenario "dev-test"
    then some dev_test_requirement
    else if str_eq scenario "database"
    then some database_requirement
    else if str_eq scenario "network"
    then some network_requirement
    else if str_eq scenario "big-data"
    then some big_data_requirement
    else if str_eq scenario "ai-ml"
    then some ai_ml_requirement
    else if str_eq scenario "containers"
    then some containers_requirement
    else if str_eq scenario "dr"
    then some dr_requirement
    else if str_eq scenario "vdi"
    then some vdi_requirement
    else if str_eq scenario "media"
    then some media_requirement
    else if str_eq scenario "enterprise"
    then some enterprise_requirement
    else none

pub record Scenario : Type 0 where
  pub id : String
  pub label : String
  pub status : String
  pub primary : String
  pub coverage : String

abbrev scenario : (id label status primary coverage : String) → Scenario
scenario id label status primary coverage = record {
  id = id;
  label = label;
  status = status;
  primary = primary;
  coverage = coverage;
}

abbrev pub scenarios : List Scenario
scenarios =
    scenario "storage-backup" "Storage & Backup" "available" "storage" "Block storage performance"
    ∷ scenario "web-app" "Web & App Hosting" "partial" "web"
        "Static and packaged dynamic HTTP/TLS serving plus fixed HTTP/2 multiplexing evidence; database-backed applications pending"
    ∷ scenario "dev-test" "Dev & Test" "roadmap" "compute" "Compute profile required"
    ∷ scenario "database" "Database Management" "partial" "database"
        "PostgreSQL, Redis, and MySQL/MariaDB transaction, cache, checkpoint, and logical recovery evidence"
    ∷ scenario "network" "Networking & Connectivity" "partial" "network"
        "Directional TCP/UDP, latency, loss, jitter, and duplex evidence"
    ∷ scenario "big-data" "Big Data & Analytics" "roadmap" "compute" "Distributed profile required"
    ∷ scenario "ai-ml" "AI & Machine Learning" "roadmap" "gpu" "Accelerator profile required"
    ∷ scenario "containers" "Container & K8s" "roadmap" "container" "Orchestration profile required"
    ∷ scenario "dr" "Disaster Recovery" "roadmap" "availability" "Recovery drill required"
    ∷ scenario "vdi" "Virtual Desktop" "roadmap" "gpu" "Interactive graphics profile required"
    ∷ scenario "media" "Media Processing" "roadmap" "media" "Codec profile required"
    ∷ scenario "enterprise" "Enterprise Applications" "roadmap" "reliability"
        "Operational evidence required"
    ∷ []
