-- ===== src/Ledger.antt =====
-- src/db/memoryStore.ts: the ledger of launches and of the evidence about them, in memory.
-- A Map is the list of its values in the order of insertion, as each value carries its key. A call
-- that throws leaves the ledger as it was.
use sentry_forensic_gate.Base.{
  to_decimal, ℕ, Bool, true, false, ◌&&◌, ◌||◌, not, Option, none, some, List, [], ◌∷◌, ◌++◌, Text,
  text_eq, same_text, to_lower_case, is_empty, codes, leb, ◌==◌, if◌then◌else◌, any, find, select,
  update_where,
}
use sentry_forensic_gate.Base.Result.{Result, ok, err}
use sentry_forensic_gate.Domain.{LaunchObserved}
use sentry_forensic_gate.Receipts.{
  DecisionReceipt, ShadowEntry, OutcomeReceipt, ProvenanceFact, ProvenanceEdge,
}
use sentry_forensic_gate.Evidence.Canonical.{Json, canonical_json}
use sentry_forensic_gate.Sentry.Identity.{normalize_launch_hex, same_launch_authority}
use sentry_forensic_gate.Shadow.Baseline.{ExecutableBaselineBatch}
use sentry_forensic_gate.Ledger.Receipt.{outcome_json}
pub mod Receipt
pub mod Rewind
pub mod Consistent
pub mod Calls
pub mod Replay
pub mod Queries
pub mod Pending
mod Tests

pub record ChainCheckpoint : Type 0 where
  pub block_number : ℕ
  pub block_hash : Text
  pub guard_block_number : Option ℕ
  pub guard_block_hash : Option Text

pub record MemoryStore : Type 0 where
  pub launches : List LaunchObserved
  pub provenance_facts : List ProvenanceFact
  pub provenance_edges : List ProvenanceEdge
  pub decisions : List DecisionReceipt
  pub shadow : List ShadowEntry
  pub outcomes : List OutcomeReceipt
  pub baselines : List ExecutableBaselineBatch
  pub checkpoint : Option ChainCheckpoint

pub data InsertResult : Type 0 where
  inserted duplicate : InsertResult

pub data LedgerError : Type 0 where
  launch_identity_conflict provenance_launch_missing : Text → LedgerError
  provenance_fact_identity_conflict provenance_edge_identity_conflict : Text → LedgerError
  outcome_launch_missing baseline_launch_missing baseline_identity_conflict : Text → LedgerError
  outcome_identity_conflict : Text → ℕ → Option Text → LedgerError

abbrev pub Action : Type 0 → Type 0
Action A = MemoryStore → Result LedgerError A × MemoryStore

abbrev pub has_launch_id : Text → LaunchObserved → Bool
has_launch_id id launch = text_eq launch.launch_id id

-- `this.launches.has(id)`
unfoldable pub is_known : List LaunchObserved → Text → Bool
is_known launches id = any (has_launch_id id) launches

-- Two launches of one transaction and token.
unfoldable pub same_economics : LaunchObserved → LaunchObserved → Bool
same_economics a b =
    a.chain_id == b.chain_id && text_eq a.tx_hash b.tx_hash && text_eq a.token b.token

unfoldable pub same_slot : OutcomeReceipt → OutcomeReceipt → Bool
unfolding same_text
same_slot a b =
    text_eq a.launch_id b.launch_id
    && a.horizon_ms == b.horizon_ms
    && same_text a.policy_version b.policy_version

-- `byId ?? bySlot`
abbrev pub or_else : {A : Type 0} → Option A → Option A → Option A
or_else none b = b
or_else (some a) b = some a

-- `insertMap`
insert_map : {A : Type 0} → (A → Bool) → A → List A → InsertResult × List A
insert_map has_key value map =
    if any has_key map then (duplicate, map) else (inserted, map ++ value ∷ [])

module _ (stringify : Json → Text) where
  unfoldable pub put_launch : LaunchObserved → Action InsertResult
  unfolding normalize_launch_hex same_launch_authority same_economics
  put_launch v ledger =
      let normalized = normalize_launch_hex v in
      elim (find (has_launch_id normalized.launch_id) ledger.launches) [
        | some existing ↦
            if same_launch_authority stringify existing normalized
            then (ok duplicate, ledger)
            else (err (launch_identity_conflict normalized.launch_id), ledger)
        | none ↦
            if any (λ launch. same_economics launch normalized) ledger.launches
            then (err (launch_identity_conflict normalized.launch_id), ledger)
            else (ok inserted, record ledger { launches = ledger.launches ++ normalized ∷ [] })
      ]

  unfoldable pub put_outcome : OutcomeReceipt → Action InsertResult
  unfolding is_known same_slot outcome_json
  put_outcome v ledger =
      let by_id = find (λ item. text_eq item.outcome_id v.outcome_id) ledger.outcomes in
      let by_slot = find (λ item. same_slot item v) ledger.outcomes in
      let conflict = outcome_identity_conflict v.launch_id v.horizon_ms v.policy_version in
      if not (is_known ledger.launches v.launch_id)
      then (err (outcome_launch_missing v.launch_id), ledger)
      else elim (or_else by_id by_slot) [
        | some collision ↦
            if not (text_eq collision.outcome_id v.outcome_id)
              || not (
                  text_eq (canonical_json stringify (outcome_json collision))
                    (canonical_json stringify (outcome_json v)))
            then (err conflict, ledger)
            else (ok duplicate, ledger)
        | none ↦ (ok inserted, record ledger { outcomes = ledger.outcomes ++ v ∷ [] })
      ]

unfoldable pub put_provenance_fact : ProvenanceFact → Action InsertResult
unfolding is_known
put_provenance_fact fact ledger =
    let existing = find (λ item. text_eq item.fact_id fact.fact_id) ledger.provenance_facts in
    let launch_collision =
      find (λ item. text_eq item.launch_id fact.launch_id) ledger.provenance_facts in
    if not (is_known ledger.launches fact.launch_id)
    then (err (provenance_launch_missing fact.launch_id), ledger)
    else elim (or_else existing launch_collision) [
      | some collision ↦
          if not (text_eq collision.fact_id fact.fact_id)
            || not (text_eq collision.evidence_digest fact.evidence_digest)
          then (err (provenance_fact_identity_conflict fact.fact_id), ledger)
          else (ok duplicate, ledger)
      | none ↦
          (ok inserted, record ledger { provenance_facts = ledger.provenance_facts ++ fact ∷ [] })
    ]

abbrev has_edge_id : Text → ProvenanceEdge → Bool
has_edge_id id edge = text_eq edge.edge_id id

-- The loop of `replaceProvenanceEdges`, on the map that it builds.
unfoldable pub index_edges :
    List ProvenanceEdge → List ProvenanceEdge → Result LedgerError (List ProvenanceEdge)
index_edges [] next = ok next
index_edges (edge ∷ edges) next =
    let replaced = index_edges edges (update_where (has_edge_id edge.edge_id) (λ e. edge) next) in
    let added = index_edges edges (next ++ edge ∷ []) in
    elim (find (has_edge_id edge.edge_id) next) [
      | some existing ↦
          if text_eq existing.evidence_digest edge.evidence_digest
          then replaced
          else err (provenance_edge_identity_conflict edge.edge_id)
      | none ↦ added
    ]

unfoldable pub replace_provenance_edges : List ProvenanceEdge → Action (Unit {0})
unfolding index_edges
replace_provenance_edges edges ledger = elim (index_edges edges []) [
  | ok next ↦ (ok tt, record ledger { provenance_edges = next })
  | err e ↦ (err e, ledger)
]

unfoldable pub put_decision : DecisionReceipt → Action InsertResult
unfolding insert_map
put_decision v ledger =
    let (answer, next) = insert_map (λ d. text_eq d.decision_id v.decision_id) v ledger.decisions in
    (ok answer, record ledger { decisions = next })

-- `${v.launchId}:${v.notionalUsdMicros}`
abbrev shadow_key : ShadowEntry → Text
shadow_key v = v.launch_id ++ codes ":" ++ to_decimal v.notional_usd_micros

unfoldable pub put_shadow_entry : ShadowEntry → Action InsertResult
unfolding insert_map
put_shadow_entry v ledger =
    let (answer, next) = insert_map (λ e. text_eq (shadow_key e) (shadow_key v)) v ledger.shadow in
    (ok answer, record ledger { shadow = next })

abbrev pub is_baseline_of : Text → ExecutableBaselineBatch → Bool
is_baseline_of launch_id batch = text_eq batch.launch_id launch_id

unfoldable pub put_baseline_batch : ExecutableBaselineBatch → Action InsertResult
unfolding is_known
put_baseline_batch batch ledger =
    if not (is_known ledger.launches batch.launch_id)
    then (err (baseline_launch_missing batch.launch_id), ledger)
    else elim (find (is_baseline_of batch.launch_id) ledger.baselines) [
      | some existing ↦
          if not (text_eq existing.baseline_id batch.baseline_id)
            || not (text_eq existing.authority_digest batch.authority_digest)
          then (err (baseline_identity_conflict batch.launch_id), ledger)
          else (ok duplicate, ledger)
      | none ↦ (ok inserted, record ledger { baselines = ledger.baselines ++ batch ∷ [] })
    ]

-- `hash ? hash.toLowerCase() : null`
lower_guard : Option Text → Option Text
lower_guard none = none
lower_guard (some hash) = if is_empty hash then none else some (to_lower_case hash)

unfoldable pub commit_checkpoint : ChainCheckpoint → Action (Unit {0})
unfolding lower_guard
commit_checkpoint checkpoint ledger =
    let kept = record checkpoint {
      block_hash = to_lower_case checkpoint.block_hash;
      guard_block_hash = lower_guard checkpoint.guard_block_hash;
    } in
    (ok tt, record ledger { checkpoint = some kept })

-- The rewind: `removed` is the set of the launches that it deletes.
unfoldable pub removed : ℕ → List LaunchObserved → Text → Bool
removed from_block launches id =
    any (λ launch. leb from_block launch.block_number && has_launch_id id launch) launches

abbrev pub keep_checkpoint : ℕ → Option ChainCheckpoint → Option ChainCheckpoint
keep_checkpoint from_block none = none
keep_checkpoint from_block (some c) = if leb from_block c.block_number then none else some c

abbrev pub has_fact : List ProvenanceFact → Text → Bool
has_fact facts id = any (λ fact. text_eq fact.fact_id id) facts

unfoldable pub rewind_from_block : ℕ → MemoryStore → MemoryStore
unfolding removed
rewind_from_block from_block ledger =
    let gone = removed from_block ledger.launches in
    let facts =
      select (λ fact. not (gone fact.launch_id || leb from_block fact.observed_block))
        ledger.provenance_facts in
    record {
      launches = select (λ launch. not (leb from_block launch.block_number)) ledger.launches;
      provenance_facts = facts;
      provenance_edges =
          select
            (λ edge. not (
              leb from_block edge.observed_block
              || any (λ id. not (has_fact facts id)) edge.source_fact_ids))
            ledger.provenance_edges;
      decisions =
          select (λ receipt. not (gone receipt.launch_id || leb from_block receipt.decision_block))
            ledger.decisions;
      shadow =
          select
            (λ e. not (
              gone e.launch_id
              || leb from_block e.entry.block_number
              || leb from_block e.immediate_exit.block_number))
            ledger.shadow;
      outcomes =
          select (λ receipt. not (gone receipt.launch_id || leb from_block receipt.observed_block))
            ledger.outcomes;
      baselines =
          select (λ batch. not (gone batch.launch_id || leb from_block batch.decision_block))
            ledger.baselines;
      checkpoint = keep_checkpoint from_block ledger.checkpoint;
    }

-- The calls that write the ledger.
pub data Call : Type 0 where
  puts_launch : LaunchObserved → Call
  puts_provenance_fact : ProvenanceFact → Call
  replaces_provenance_edges : List ProvenanceEdge → Call
  puts_decision : DecisionReceipt → Call
  puts_shadow_entry : ShadowEntry → Call
  puts_outcome : OutcomeReceipt → Call
  puts_baseline_batch : ExecutableBaselineBatch → Call
  commits_checkpoint : ChainCheckpoint → Call
  rewinds_from_block : ℕ → Call

abbrev pub empty_store : MemoryStore
empty_store = record {
  launches = [];
  provenance_facts = [];
  provenance_edges = [];
  decisions = [];
  shadow = [];
  outcomes = [];
  baselines = [];
  checkpoint = none;
}

module _ (stringify : Json → Text) where
  unfoldable pub after : Call → MemoryStore → MemoryStore
  after (puts_launch v) ledger = (put_launch stringify v ledger).1
  after (puts_provenance_fact fact) ledger = (put_provenance_fact fact ledger).1
  after (replaces_provenance_edges edges) ledger = (replace_provenance_edges edges ledger).1
  after (puts_decision v) ledger = (put_decision v ledger).1
  after (puts_shadow_entry v) ledger = (put_shadow_entry v ledger).1
  after (puts_outcome v) ledger = (put_outcome stringify v ledger).1
  after (puts_baseline_batch batch) ledger = (put_baseline_batch batch ledger).1
  after (commits_checkpoint checkpoint) ledger = (commit_checkpoint checkpoint ledger).1
  after (rewinds_from_block from_block) ledger = rewind_from_block from_block ledger

  unfoldable pub after_all : List Call → MemoryStore → MemoryStore
  after_all [] ledger = ledger
  after_all (c ∷ cs) ledger = after_all cs (after c ledger)
