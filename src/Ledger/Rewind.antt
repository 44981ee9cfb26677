-- ===== src/Ledger/Rewind.antt =====
-- What `rewindFromBlock` of src/db/memoryStore.ts leaves of a ledger.
use sentry_forensic_gate.Base.{
  ℕ, ◌≡◌, refl, Bool, false, ◌||◌, not, Option, none, some, List, [], ◌∷◌, arith, Text, leb, any,
  select, any-select_none, select-all,
}
use sentry_forensic_gate.Domain.{LaunchObserved}
use sentry_forensic_gate.Receipts.{ProvenanceFact, ProvenanceEdge, ShadowEntry}
use sentry_forensic_gate.Ledger.{
  MemoryStore, ChainCheckpoint, removed, has_fact, rewind_from_block, keep_checkpoint,
}

abbrev reaches : ℕ → Option ChainCheckpoint → Bool
reaches from_block none = false
reaches from_block (some c) = leb from_block c.block_number

-- Nothing of the ledger was seen at the block or after it, and every edge has its facts.
pub record IsBelow (from_block : ℕ) (ledger : MemoryStore) : Type 0 where
  pub launches : any (λ l. leb from_block l.block_number) ledger.launches ≡ false
  pub facts : any (λ f. leb from_block f.observed_block) ledger.provenance_facts ≡ false
  pub edges : any (λ e. leb from_block e.observed_block) ledger.provenance_edges ≡ false
  pub sourced :
      any
        (λ e. any (λ id. not (has_fact ledger.provenance_facts id)) e.source_fact_ids)
        ledger.provenance_edges
      ≡ false
  pub decisions : any (λ d. leb from_block d.decision_block) ledger.decisions ≡ false
  pub entries : any (λ s. leb from_block s.entry.block_number) ledger.shadow ≡ false
  pub exits : any (λ s. leb from_block s.immediate_exit.block_number) ledger.shadow ≡ false
  pub outcomes : any (λ o. leb from_block o.observed_block) ledger.outcomes ≡ false
  pub baselines : any (λ b. leb from_block b.decision_block) ledger.baselines ≡ false
  pub checkpoint : reaches from_block ledger.checkpoint ≡ false

checkpoint_below :
    (from_block : ℕ) (ledger : MemoryStore)
    → reaches from_block (rewind_from_block from_block ledger).checkpoint ≡ false
unfolding rewind_from_block
checkpoint_below from_block ledger = ground arith

-- A rewind leaves nothing at the block or after it, and no edge without its facts.
pub rewind_from_block-IsBelow :
    (from_block : ℕ) (ledger : MemoryStore)
    → IsBelow from_block (rewind_from_block from_block ledger)
unfolding rewind_from_block
rewind_from_block-IsBelow from_block ledger = record {
  launches = any-select_none _ _ ledger.launches (λ x h. ground arith);
  facts = any-select_none _ _ ledger.provenance_facts (λ x h. ground arith);
  edges = any-select_none _ _ ledger.provenance_edges (λ x h. ground arith);
  sourced = any-select_none _ _ ledger.provenance_edges (λ x h. ground arith);
  decisions = any-select_none _ _ ledger.decisions (λ x h. ground arith);
  entries = any-select_none _ _ ledger.shadow (λ x h. ground arith);
  exits = any-select_none _ _ ledger.shadow (λ x h. ground arith);
  outcomes = any-select_none _ _ ledger.outcomes (λ x h. ground arith);
  baselines = any-select_none _ _ ledger.baselines (λ x h. ground arith);
  checkpoint = checkpoint_below from_block ledger;
}

none_removed :
    (from_block : ℕ) (launches : List LaunchObserved) (id : Text)
    → any (λ l. leb from_block l.block_number) launches ≡ false
    → removed from_block launches id ≡ false
unfolding removed
none_removed from_block [] id h = refl
none_removed from_block (l ∷ launches) id h = ground (arith, none_removed from_block launches id)

keep_all :
    (from_block : ℕ) (c : Option ChainCheckpoint)
    → reaches from_block c ≡ false
    → keep_checkpoint from_block c ≡ c
keep_all from_block none h = refl
keep_all from_block (some c) h = ground arith

edges_kept :
    (from_block : ℕ) (facts : List ProvenanceFact) (edges : List ProvenanceEdge)
    → any (λ e. leb from_block e.observed_block) edges ≡ false
    → any (λ e. any (λ id. not (has_fact facts id)) e.source_fact_ids) edges ≡ false
    → select
        (λ e. not (
          leb from_block e.observed_block || any (λ id. not (has_fact facts id)) e.source_fact_ids))
        edges
      ≡ edges
edges_kept from_block facts [] h k = refl
edges_kept from_block facts (e ∷ edges) h k = ground (arith, edges_kept from_block facts edges)

shadow_kept :
    (from_block : ℕ) (gone : Text → Bool) (entries : List ShadowEntry)
    → ((id : Text) → gone id ≡ false)
    → any (λ s. leb from_block s.entry.block_number) entries ≡ false
    → any (λ s. leb from_block s.immediate_exit.block_number) entries ≡ false
    → select
        (λ e. not (
          gone e.launch_id
          || leb from_block e.entry.block_number
          || leb from_block e.immediate_exit.block_number))
        entries
      ≡ entries
shadow_kept from_block gone [] g h k = refl
shadow_kept from_block gone (e ∷ entries) g h k =
    ground (arith, g e.launch_id, shadow_kept from_block gone entries g)

-- Evidence with a launch and a block, when no launch is gone.
evidence_kept :
    {A : Type 0} (from_block : ℕ) (gone : Text → Bool) (launch_of : A → Text) (block_of : A → ℕ)
    (xs : List A)
    → ((id : Text) → gone id ≡ false)
    → any (λ x. leb from_block (block_of x)) xs ≡ false
    → select (λ x. not (gone (launch_of x) || leb from_block (block_of x))) xs ≡ xs
evidence_kept from_block gone launch_of block_of [] g h = refl
evidence_kept from_block gone launch_of block_of (x ∷ xs) g h =
    ground (arith, g (launch_of x), evidence_kept from_block gone launch_of block_of xs g)

same_fields :
    (a b : MemoryStore)
    → a.launches ≡ b.launches
    → a.provenance_facts ≡ b.provenance_facts
    → a.provenance_edges ≡ b.provenance_edges
    → a.decisions ≡ b.decisions
    → a.shadow ≡ b.shadow
    → a.outcomes ≡ b.outcomes
    → a.baselines ≡ b.baselines
    → a.checkpoint ≡ b.checkpoint
    → a ≡ b
same_fields a b l f e d s o m c = λ i. record {
  launches = l i;
  provenance_facts = f i;
  provenance_edges = e i;
  decisions = d i;
  shadow = s i;
  outcomes = o i;
  baselines = m i;
  checkpoint = c i;
}

-- A rewind changes a ledger only if something in it was seen at the block or after it, or an edge
-- has lost a fact.
pub rewind_from_block-fixed :
    (from_block : ℕ) (ledger : MemoryStore)
    → IsBelow from_block ledger
    → rewind_from_block from_block ledger ≡ ledger
unfolding rewind_from_block
rewind_from_block-fixed from_block ledger v =
    let gone = removed from_block ledger.launches in
    let g : (id : Text) → gone id ≡ false =
      λ id. none_removed from_block ledger.launches id v.launches in
    let facts =
      evidence_kept from_block gone (λ x. x.launch_id) (λ x. x.observed_block)
        ledger.provenance_facts g v.facts in
    same_fields (rewind_from_block from_block ledger) ledger
      (select-all (λ l. leb from_block l.block_number) (λ l. not (leb from_block l.block_number))
        ledger.launches (λ x h. ground arith) v.launches)
      facts
      (rw facts
        (edges_kept from_block ledger.provenance_facts ledger.provenance_edges v.edges v.sourced))
      (evidence_kept from_block gone (λ x. x.launch_id) (λ x. x.decision_block) ledger.decisions g
        v.decisions)
      (shadow_kept from_block gone ledger.shadow g v.entries v.exits)
      (evidence_kept from_block gone (λ x. x.launch_id) (λ x. x.observed_block) ledger.outcomes g
        v.outcomes)
      (evidence_kept from_block gone (λ x. x.launch_id) (λ x. x.decision_block) ledger.baselines g
        v.baselines)
      (keep_all from_block ledger.checkpoint v.checkpoint)
