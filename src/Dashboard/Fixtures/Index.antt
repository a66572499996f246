-- ===== src/Dashboard/Fixtures/Index.antt =====
-- The clusters of fixtures that are one, a fixture of each source at most: indexFixtureIdentities of
-- frontend/lib/fixture-identity.ts.
pub mod Suffixes
use surebet.Base.{
  ℕ, zero, suc, ◌+◌, String, Bool, true, false, not, ◌&&◌, ◌||◌, Option, none, some, List, [], ◌∷◌,
  ◌++◌, map, any, ltb, eqb, get_elem?, or_else, flat_map, sort_by, ◌==◌, if◌then◌else◌,
}
use surebet.Base.Int.{ℤ, pos, ltb_ℤ, eqb_ℤ}
use surebet.Base.Text.{◌^^◌}
use surebet.Base.Decimal.{number_text}
use surebet.JsMap.{JsMap, JsSet, empty, get, has, set, size, keys}
use surebet.JsMap.SetOf.{set_of}
use surebet.Unicode.{Unicode, locale_before}
use surebet.Dashboard.Fixtures.Tokens.{set_at}
use surebet.Dashboard.Fixtures.Identity.{
  FixtureIdentity, Score, fixture_identity_similarity, above_threshold, score_gt,
}

pub record FixtureIdentityIndexEntry : Type 0 where
  pub id : String
  pub source_id : String
  pub identity : FixtureIdentity

pub record Cluster : Type 0 where
  pub key : String
  pub representative : FixtureIdentity
  pub source_ids : JsSet

pub record Candidate : Type 0 where
  pub entry_index : ℕ
  pub cluster_index : ℕ
  pub score : Score

-- The first loop: the entries of each source
unfoldable pub group_by_source :
    List FixtureIdentityIndexEntry
    → JsMap (List FixtureIdentityIndexEntry)
    → JsMap (List FixtureIdentityIndexEntry)
group_by_source [] groups = groups
group_by_source (entry ∷ entries) groups =
    group_by_source entries
      (set entry.source_id (or_else (get entry.source_id groups) [] ++ entry ∷ []) groups)

unfoldable pub numbered_key : String → ℕ → String
unfolding number_text
numbered_key base suffix = (base ^^ " #") ^^ number_text suffix

-- The loop over suffixes; on fuel, one more than the keys in use.
unfoldable pub free_suffix : ℕ → JsSet → String → ℕ → ℕ
unfolding numbered_key
free_suffix zero used base suffix = suffix
free_suffix (suc fuel) used base suffix = elim (has (numbered_key base suffix) used) [
  | true ↦ free_suffix fuel used base (suc suffix)
  | false ↦ suffix
]

unfoldable pub unique_cluster_key : List Cluster → String → String
unfolding free_suffix set_of
unique_cluster_key clusters base =
    let used = set_of (map (λ (cluster : Cluster). cluster.key) clusters) in
    if has base used then numbered_key base (free_suffix (suc (size used)) used base 2) else base

-- The candidates of one entry, from a cluster index on
unfoldable pub cluster_candidates :
    String → ℕ → FixtureIdentityIndexEntry → ℕ → List Cluster → List Candidate
unfolding fixture_identity_similarity above_threshold
cluster_candidates source_id entry_index entry cluster_index [] = []
cluster_candidates source_id entry_index entry cluster_index (cluster ∷ clusters) =
    let rest = cluster_candidates source_id entry_index entry (suc cluster_index) clusters in
    let score = fixture_identity_similarity entry.identity cluster.representative in
    if has source_id cluster.source_ids
    then rest
    else if above_threshold score
    then record { entry_index = entry_index; cluster_index = cluster_index; score = score } ∷ rest
    else rest

unfoldable pub entry_candidates :
    String → List Cluster → ℕ → List FixtureIdentityIndexEntry → List Candidate
unfolding cluster_candidates
entry_candidates source_id clusters entry_index [] = []
entry_candidates source_id clusters entry_index (entry ∷ entries) =
    cluster_candidates source_id entry_index entry 0 clusters
    ++ entry_candidates source_id clusters (suc entry_index) entries

-- The text at an index that is inside the list
unfoldable pub id_at : List FixtureIdentityIndexEntry → ℕ → String
id_at [] index = ""
id_at (entry ∷ entries) zero = entry.id
id_at (entry ∷ entries) (suc index) = id_at entries index

unfoldable pub key_at : List Cluster → ℕ → String
key_at [] index = ""
key_at (cluster ∷ clusters) zero = cluster.key
key_at (cluster ∷ clusters) (suc index) = key_at clusters index

-- The comparator of the candidates: higher scores first, then by entry and by cluster
unfoldable pub candidate_before :
    Unicode → List FixtureIdentityIndexEntry → List Cluster → Candidate → Candidate → Bool
unfolding score_gt id_at key_at
candidate_before u entries clusters left right =
    let entry_order =
      u.locale_compare (id_at entries left.entry_index) (id_at entries right.entry_index) in
    if score_gt left.score right.score || score_gt right.score left.score
    then score_gt left.score right.score
    else if not (eqb_ℤ entry_order (pos 0))
    then ltb_ℤ entry_order (pos 0)
    else locale_before u (key_at clusters left.cluster_index) (key_at clusters right.cluster_index)

-- clusters, clusterKeyByEntry, assignedEntries and assignedClusters
pub record Assignment : Type 0 where
  pub clusters : List Cluster
  pub cluster_key_by_entry : JsMap String
  pub assigned_entries : List ℕ
  pub assigned_clusters : List ℕ

unfoldable pub mark_source : String → ℕ → List Cluster → List Cluster
mark_source source_id index [] = []
mark_source source_id zero (cluster ∷ clusters) =
    record cluster { source_ids = set source_id tt cluster.source_ids } ∷ clusters
mark_source source_id (suc index) (cluster ∷ clusters) =
    cluster ∷ mark_source source_id index clusters

abbrev pub includes : ℕ → List ℕ → Bool
includes index l = any (λ i. eqb i index) l

-- The loop over the candidates
unfoldable pub assign_candidate :
    String → List FixtureIdentityIndexEntry → Candidate → Assignment → Assignment
unfolding mark_source id_at key_at
assign_candidate source_id entries candidate a =
    if includes candidate.entry_index a.assigned_entries
      || includes candidate.cluster_index a.assigned_clusters
    then a
    else record {
      clusters = mark_source source_id candidate.cluster_index a.clusters;
      cluster_key_by_entry =
          set (id_at entries candidate.entry_index) (key_at a.clusters candidate.cluster_index)
            a.cluster_key_by_entry;
      assigned_entries = candidate.entry_index ∷ a.assigned_entries;
      assigned_clusters = candidate.cluster_index ∷ a.assigned_clusters;
    }

unfoldable pub assign_candidates :
    String → List FixtureIdentityIndexEntry → List Candidate → Assignment → Assignment
unfolding assign_candidate
assign_candidates source_id entries [] a = a
assign_candidates source_id entries (candidate ∷ candidates) a =
    assign_candidates source_id entries candidates (assign_candidate source_id entries candidate a)

-- An entry that no cluster took begins one.
unfoldable pub begin_cluster : String → FixtureIdentityIndexEntry → Assignment → Assignment
unfolding unique_cluster_key
begin_cluster source_id entry a =
    let cluster_key = unique_cluster_key a.clusters entry.identity.key in
    record a {
      clusters =
          a.clusters
          ++ record {
            key = cluster_key;
            representative = entry.identity;
            source_ids = set source_id tt empty;
          }
            ∷ [];
      cluster_key_by_entry = set entry.id cluster_key a.cluster_key_by_entry;
    }

-- The loop over the entries, from an index on
unfoldable pub begin_clusters :
    String → ℕ → List FixtureIdentityIndexEntry → Assignment → Assignment
unfolding begin_cluster
begin_clusters source_id index [] a = a
begin_clusters source_id index (entry ∷ entries) a =
    begin_clusters source_id (suc index) entries
      (if includes index a.assigned_entries then a else begin_cluster source_id entry a)

-- The body of the loop over the sources
unfoldable pub index_source :
    Unicode
    → JsMap (List FixtureIdentityIndexEntry)
    → String
    → List Cluster × JsMap String
    → Assignment
unfolding entry_candidates candidate_before assign_candidates begin_clusters
index_source u groups source_id (clusters, cluster_key_by_entry) =
    let source_entries =
      sort_by (λ left right. locale_before u left.id right.id)
        (or_else (get source_id groups) []) in
    let candidates =
      sort_by (candidate_before u source_entries clusters)
        (entry_candidates source_id clusters 0 source_entries) in
    begin_clusters source_id 0 source_entries (
      assign_candidates source_id source_entries candidates (record {
        clusters = clusters;
        cluster_key_by_entry = cluster_key_by_entry;
        assigned_entries = [];
        assigned_clusters = [];
      }))

unfoldable pub index_sources :
    Unicode
    → JsMap (List FixtureIdentityIndexEntry)
    → List String
    → List Cluster × JsMap String
    → List Cluster × JsMap String
unfolding index_source
index_sources u groups [] indexed = indexed
index_sources u groups (source_id ∷ source_ids) indexed =
    let a = index_source u groups source_id indexed in
    index_sources u groups source_ids (a.clusters, a.cluster_key_by_entry)

-- `clusters` and `clusterKeyByEntry`, which is the result, at the end
unfoldable pub index_fixture_identities :
    Unicode → List FixtureIdentityIndexEntry → List Cluster × JsMap String
unfolding group_by_source index_sources
index_fixture_identities u entries =
    let groups = group_by_source entries empty in
    index_sources u groups (sort_by (locale_before u) (keys groups)) ([], empty)
