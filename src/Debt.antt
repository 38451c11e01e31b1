-- ===== src/Debt.antt =====
-- The debt ledger of the command line (backend/engine/debt.py): which residue clusters are closed,
-- how and by whom. Ids and texts are lists of code points.
pub mod Closing
mod Tests
use sih.Prelude.{
  ℕ, ◌≡◌, Bool, true, false, not, ◌&&◌, ◌||◌, Option, none, some, String, List, [], ◌∷◌, ◌++◌, map,
  find?, take, if◌then◌else◌,
}
use sih.Prelude.Text.{codes}
use sih.Prelude.Bytes.{Bytes, bytes_eq, str_strip}

-- `"promoted-to-rule" | "excluded" | "accepted"`, and the `"open"` of a record without a state.
pub data ClosedState : Type 0 where
  is_open promoted_to_rule excluded accepted : ClosedState

pub record ClosedClusterRecord : Type 0 where
  pub cluster_id : Bytes
  pub state : ClosedState
  pub owner : Option Bytes
  pub justification : Option Bytes
  pub rule_file : Option Bytes
  pub fixture_file : Option Bytes

-- The dictionary by cluster id: its entries in order.
abbrev pub DebtStore : Type 0
DebtStore = List ClosedClusterRecord

-- The file at `store_path`: there is none, it cannot be read as JSON, or it holds the records.
pub data StoreFile : Type 0 where
  missing unreadable : StoreFile
  holding : DebtStore → StoreFile

unfoldable pub load_debt_store : StoreFile → DebtStore
load_debt_store missing = []
load_debt_store unreadable = []
load_debt_store (holding records) = records

-- `debt_store.get(cluster_id)`
unfoldable pub get_record : Bytes → DebtStore → Option ClosedClusterRecord
get_record id store = find? (λ r. bytes_eq r.cluster_id id) store

-- `debt_store[cluster_id] = record`
unfoldable pub put_record : ClosedClusterRecord → DebtStore → DebtStore
put_record new [] = new ∷ []
put_record new (r ∷ store) =
    let rest = put_record new store in
    if bytes_eq r.cluster_id new.cluster_id then new ∷ store else r ∷ rest

-- The record of a cluster, or a `ValueError`; and the file afterwards.
pub data Closed : Type 0 where
  closed : ClosedClusterRecord → Closed
  no_justification no_owner : Closed

unfoldable pub closing_record : ClosedState → Bytes → Bytes → Bytes → ClosedClusterRecord
closing_record state id justification owner = record {
  cluster_id = id;
  state = state;
  owner = some (str_strip owner);
  justification = some (str_strip justification);
  rule_file = none;
  fixture_file = none;
}

-- `not text or not text.strip()`
unfoldable pub is_blank : Bytes → Bool
is_blank text = elim (str_strip text) [ [] ↦ true | c ∷ s ↦ false ]

-- The body that `exclude_cluster` and `accept_cluster` share, up to the state.
unfoldable pub close_cluster : ClosedState → Bytes → Bytes → Bytes → StoreFile → Closed × StoreFile
close_cluster state id justification owner file =
    if is_blank justification
    then (no_justification, file)
    else if is_blank owner
    then (no_owner, file)
    else (
      closed (closing_record state id justification owner),
      holding (put_record (closing_record state id justification owner) (load_debt_store file)),
    )

unfoldable pub exclude_cluster : Bytes → Bytes → Bytes → StoreFile → Closed × StoreFile
exclude_cluster = close_cluster excluded

unfoldable pub accept_cluster : Bytes → Bytes → Bytes → StoreFile → Closed × StoreFile
accept_cluster = close_cluster accepted

-- The files that a promotion writes, by path.
pub record Written : Type 0 where
  pub fixture_path : Bytes
  pub fixture : Bytes
  pub rule_path : Bytes
  pub rule : Bytes

-- `promote_cluster`: `rule_text` is the text of the rule, of the id and the bytes of the cluster.
unfoldable pub promote_cluster :
    (Bytes → Bytes → Bytes)
    → Bytes
    → Bytes
    → Bytes
    → StoreFile
    → ClosedClusterRecord × Written × StoreFile
promote_cluster rule_text id cluster_slice artifact_ext file =
    let short_id = take 12 id in
    let fixture_name = codes "fixture_promoted_" ++ short_id ++ artifact_ext in
    let rule_name = codes "promoted_" ++ short_id ++ codes ".py" in
    let new : ClosedClusterRecord = record {
      cluster_id = id;
      state = promoted_to_rule;
      owner = some (codes "engine-promoter");
      justification = some (codes "Promoted to dedicated detection rule " ++ rule_name);
      rule_file = some (codes "engine/" ++ rule_name);
      fixture_file = some (codes "bench/fixtures/" ++ fixture_name);
    } in
    (
      new,
      record {
        fixture_path = fixture_name;
        fixture = cluster_slice;
        rule_path = rule_name;
        rule = rule_text id cluster_slice;
      },
      holding (put_record new (load_debt_store file)),
    )

-- A cluster as the ledger of an artifact gives it: `ResidueCluster` of the attribution ledger.
pub record Cluster : Type 0 where
  pub id : Bytes
  pub artifact_hash : Bytes
  pub start : ℕ
  pub stop : ℕ
  pub mass : ℕ
  pub state : ClosedState
  pub owner : Option Bytes
  pub justification : Option Bytes
  pub preview : Bytes

-- An item of `list_clusters`.
pub record Listed : Type 0 where
  pub id : Bytes
  pub artifact_hash : Bytes
  pub start : ℕ
  pub stop : ℕ
  pub mass : ℕ
  pub state : ClosedState
  pub owner : Option Bytes
  pub preview : Bytes

-- The result of `show_cluster`: the cluster as it is shown, and the files of a promotion.
pub record Item : Type 0 where
  pub cluster : Cluster
  pub rule_file : Option Bytes
  pub fixture_file : Option Bytes

-- What the record says of the cluster, if there is one, and else what the cluster says.
unfoldable pub shown : Cluster → Option ClosedClusterRecord → Item
shown c none = record { cluster = c; rule_file = none; fixture_file = none }
shown c (some r) = record {
  cluster = record c { state = r.state; owner = r.owner; justification = r.justification };
  rule_file = r.rule_file;
  fixture_file = r.fixture_file;
}

unfoldable pub listed : Cluster → Option ClosedClusterRecord → Listed
unfolding shown
listed c rec =
    let s = (shown c rec).cluster in
    record {
      id = s.id;
      artifact_hash = s.artifact_hash;
      start = s.start;
      stop = s.stop;
      mass = s.mass;
      state = s.state;
      owner = s.owner;
      preview = s.preview;
    }

-- `list_clusters`, of clusters that are objects.
unfoldable pub list_clusters : List Cluster → StoreFile → List Listed
list_clusters clusters file = map (λ c. listed c (get_record c.id (load_debt_store file))) clusters

-- `show_cluster`, likewise.
unfoldable pub show_cluster : Bytes → List Cluster → StoreFile → Option Item
show_cluster id clusters file = elim (find? (λ c. bytes_eq c.id id) clusters) [
  | none ↦ none
  | some c ↦ some (shown c (get_record id (load_debt_store file)))
]
