-- ===== src/Store/Campaigns.antt =====
-- cloudmark/database.py: the table campaigns.
use cloud_mark.Prelude.{
  ℕ, Bool, Option, List, [], ◌∷◌, ◌++◌, String, str_eq, if◌then◌else◌, select_one, leb, max, min,
  take, ℤ, pos_part, is_some,
}
use cloud_mark.Python.{Fields, Result, ok, raise, integrity_error}
use cloud_mark.Store.Schema.{Campaign, Database}

abbrev campaign_is : String → Campaign → Bool
campaign_is campaign_id c = str_eq c.id campaign_id

unfoldable pub get_campaign : Database → String → Option Campaign
get_campaign db campaign_id = select_one (campaign_is campaign_id) db.campaigns

unfoldable pub create_campaign :
    (now : ℕ) (campaign_id label : String) (target_windows : ℕ) (contract : Fields)
    → Database
    → Result Database
unfolding get_campaign
create_campaign now campaign_id label target_windows contract db =
    if is_some (get_campaign db campaign_id)
    then raise integrity_error
    else ok (record db {
      campaigns =
          db.campaigns
          ++ (record {
            id = campaign_id;
            label = label;
            status = "active";
            created_at = now;
            target_windows = target_windows;
            contract = contract;
          })
            ∷ [];
    })

-- One more row, of a greater rowid, into ORDER BY created_at DESC, rowid DESC.
insert_newest : Campaign → List Campaign → List Campaign
insert_newest c [] = c ∷ []
insert_newest c (x ∷ xs) =
    if leb x.created_at c.created_at then c ∷ x ∷ xs else x ∷ insert_newest c xs

newest_first : List Campaign → List Campaign → List Campaign
unfolding insert_newest
newest_first sorted [] = sorted
newest_first sorted (c ∷ rest) = newest_first (insert_newest c sorted) rest

unfoldable pub list_campaigns : ℤ → Database → List Campaign
unfolding newest_first
list_campaigns limit db = take (max 1 (min (pos_part limit) 500)) (newest_first [] db.campaigns)
