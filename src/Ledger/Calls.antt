-- ===== src/Ledger/Calls.antt =====
-- Every call of src/db/memoryStore.ts keeps the ledger consistent.
use sentry_forensic_gate.Base.{
  ◌≡◌, refl, sym, true, false, none, List, [], ◌∷◌, ◌++◌, arith, Text, text_eq, any, find,
  append-IsApart,
}
use sentry_forensic_gate.Domain.{LaunchObserved}
use sentry_forensic_gate.Receipts.{ProvenanceFact, ProvenanceEdge, OutcomeReceipt}
use sentry_forensic_gate.Shadow.Baseline.{ExecutableBaselineBatch}
use sentry_forensic_gate.Evidence.Canonical.{Json}
use sentry_forensic_gate.Sentry.Identity.{normalize_launch_hex}
use sentry_forensic_gate.Ledger.{
  MemoryStore, has_launch_id, is_known, same_economics, same_slot, is_baseline_of, put_launch,
  put_outcome, put_provenance_fact, replace_provenance_edges, put_decision, put_shadow_entry,
  put_baseline_batch, commit_checkpoint, Call, puts_launch, puts_provenance_fact,
  replaces_provenance_edges, puts_decision, puts_shadow_entry, puts_outcome, puts_baseline_batch,
  commits_checkpoint, rewinds_from_block, after, after_all, empty_store,
}
use sentry_forensic_gate.Ledger.Consistent.{
  IsConsistent, rival_launches, rival_facts, rival_outcomes, rival_baselines, find-none, any-or,
  IsGrounded-append, IsGrounded-add, rewind_from_block-IsConsistent,
}

module _ (ledger : MemoryStore) (v : IsConsistent ledger) where
  launch_added :
      (l : LaunchObserved)
      → find (has_launch_id l.launch_id) ledger.launches ≡ none
      → any (λ launch. same_economics launch l) ledger.launches ≡ false
      → IsConsistent (record ledger { launches = ledger.launches ++ l ∷ [] })
  launch_added l e d = record {
    launches_apart = append-IsApart rival_launches ledger.launches l v.launches_apart (
        any-or (has_launch_id l.launch_id) (λ x. same_economics x l) ledger.launches
          (find-none _ ledger.launches e) d);
    facts_apart = v.facts_apart;
    outcomes_apart = v.outcomes_apart;
    baselines_apart = v.baselines_apart;
    facts_grounded =
        IsGrounded-append (λ f. f.launch_id) ledger.launches l ledger.provenance_facts
          v.facts_grounded;
    outcomes_grounded =
        IsGrounded-append (λ o. o.launch_id) ledger.launches l ledger.outcomes v.outcomes_grounded;
    baselines_grounded =
        IsGrounded-append (λ b. b.launch_id) ledger.launches l ledger.baselines
          v.baselines_grounded;
  }

  fact_added :
      (fact : ProvenanceFact)
      → is_known ledger.launches fact.launch_id ≡ true
      → find (λ item. text_eq item.fact_id fact.fact_id) ledger.provenance_facts ≡ none
      → find (λ item. text_eq item.launch_id fact.launch_id) ledger.provenance_facts ≡ none
      → IsConsistent (record ledger { provenance_facts = ledger.provenance_facts ++ fact ∷ [] })
  fact_added fact k e d = record {
    launches_apart = v.launches_apart;
    facts_apart = append-IsApart rival_facts ledger.provenance_facts fact v.facts_apart (
        any-or (λ item. text_eq item.fact_id fact.fact_id)
          (λ item. text_eq item.launch_id fact.launch_id) ledger.provenance_facts
          (find-none _ ledger.provenance_facts e) (find-none _ ledger.provenance_facts d));
    outcomes_apart = v.outcomes_apart;
    baselines_apart = v.baselines_apart;
    facts_grounded =
        IsGrounded-add (λ f. f.launch_id) ledger.launches ledger.provenance_facts fact
          v.facts_grounded k;
    outcomes_grounded = v.outcomes_grounded;
    baselines_grounded = v.baselines_grounded;
  }

  outcome_added :
      (o : OutcomeReceipt)
      → is_known ledger.launches o.launch_id ≡ true
      → find (λ item. text_eq item.outcome_id o.outcome_id) ledger.outcomes ≡ none
      → find (λ item. same_slot item o) ledger.outcomes ≡ none
      → IsConsistent (record ledger { outcomes = ledger.outcomes ++ o ∷ [] })
  outcome_added o k e d = record {
    launches_apart = v.launches_apart;
    facts_apart = v.facts_apart;
    outcomes_apart = append-IsApart rival_outcomes ledger.outcomes o v.outcomes_apart (
        any-or (λ item. text_eq item.outcome_id o.outcome_id) (λ item. same_slot item o)
          ledger.outcomes (find-none _ ledger.outcomes e) (find-none _ ledger.outcomes d));
    baselines_apart = v.baselines_apart;
    facts_grounded = v.facts_grounded;
    outcomes_grounded =
        IsGrounded-add (λ x. x.launch_id) ledger.launches ledger.outcomes o v.outcomes_grounded k;
    baselines_grounded = v.baselines_grounded;
  }

  baseline_added :
      (b : ExecutableBaselineBatch)
      → is_known ledger.launches b.launch_id ≡ true
      → find (is_baseline_of b.launch_id) ledger.baselines ≡ none
      → IsConsistent (record ledger { baselines = ledger.baselines ++ b ∷ [] })
  baseline_added b k e = record {
    launches_apart = v.launches_apart;
    facts_apart = v.facts_apart;
    outcomes_apart = v.outcomes_apart;
    baselines_apart =
        append-IsApart rival_baselines ledger.baselines b v.baselines_apart
          (find-none _ ledger.baselines e);
    facts_grounded = v.facts_grounded;
    outcomes_grounded = v.outcomes_grounded;
    baselines_grounded =
        IsGrounded-add (λ x. x.launch_id) ledger.launches ledger.baselines b v.baselines_grounded k;
  }

  put_launch-IsConsistent :
      (stringify : Json → Text) (l : LaunchObserved)
      → IsConsistent (put_launch stringify l ledger).1
  unfolding put_launch
  put_launch-IsConsistent stringify l = ground (arith, launch_added (normalize_launch_hex l))

  put_fact-IsConsistent : (fact : ProvenanceFact) → IsConsistent (put_provenance_fact fact ledger).1
  unfolding put_provenance_fact
  put_fact-IsConsistent fact = ground (arith, fact_added fact)

  put_outcome-IsConsistent :
      (stringify : Json → Text) (o : OutcomeReceipt)
      → IsConsistent (put_outcome stringify o ledger).1
  unfolding put_outcome
  put_outcome-IsConsistent stringify o = ground (arith, outcome_added o)

  put_baseline-IsConsistent :
      (b : ExecutableBaselineBatch) → IsConsistent (put_baseline_batch b ledger).1
  unfolding put_baseline_batch
  put_baseline-IsConsistent b = ground (arith, baseline_added b)

-- The calls that write neither launches nor the evidence about them.
other_writes :
    (a b : MemoryStore)
    → IsConsistent a
    → a.launches ≡ b.launches
    → a.provenance_facts ≡ b.provenance_facts
    → a.outcomes ≡ b.outcomes
    → a.baselines ≡ b.baselines
    → IsConsistent b
other_writes a b v l f o m = record {
  launches_apart = rw (sym l) v.launches_apart;
  facts_apart = rw (sym f) v.facts_apart;
  outcomes_apart = rw (sym o) v.outcomes_apart;
  baselines_apart = rw (sym m) v.baselines_apart;
  facts_grounded = rw (sym l, sym f) v.facts_grounded;
  outcomes_grounded = rw (sym l, sym o) v.outcomes_grounded;
  baselines_grounded = rw (sym l, sym m) v.baselines_grounded;
}

replace_edges-IsConsistent :
    (edges : List ProvenanceEdge) (ledger : MemoryStore)
    → IsConsistent ledger
    → IsConsistent (replace_provenance_edges edges ledger).1
unfolding replace_provenance_edges
replace_edges-IsConsistent edges ledger v =
    ground (arith, other_writes ledger (replace_provenance_edges edges ledger).1 v)

module _ (stringify : Json → Text) where
  pub after-IsConsistent :
      (c : Call) (ledger : MemoryStore)
      → IsConsistent ledger
      → IsConsistent (after stringify c ledger)
  unfolding after put_decision put_shadow_entry commit_checkpoint
  after-IsConsistent (puts_launch l) ledger v = put_launch-IsConsistent ledger v stringify l
  after-IsConsistent (puts_provenance_fact fact) ledger v = put_fact-IsConsistent ledger v fact
  after-IsConsistent (replaces_provenance_edges edges) ledger v =
      replace_edges-IsConsistent edges ledger v
  after-IsConsistent (puts_decision d) ledger v = other_writes ledger _ v refl refl refl refl
  after-IsConsistent (puts_shadow_entry e) ledger v = other_writes ledger _ v refl refl refl refl
  after-IsConsistent (puts_outcome o) ledger v = put_outcome-IsConsistent ledger v stringify o
  after-IsConsistent (puts_baseline_batch b) ledger v = put_baseline-IsConsistent ledger v b
  after-IsConsistent (commits_checkpoint c) ledger v = other_writes ledger _ v refl refl refl refl
  after-IsConsistent (rewinds_from_block n) ledger v = rewind_from_block-IsConsistent n ledger v

  all-IsConsistent :
      (cs : List Call) (ledger : MemoryStore)
      → IsConsistent ledger
      → IsConsistent (after_all stringify cs ledger)
  unfolding after_all
  all-IsConsistent [] ledger v = v
  all-IsConsistent (c ∷ cs) ledger v =
      all-IsConsistent cs (after stringify c ledger) (after-IsConsistent c ledger v)

  -- After any calls on an empty ledger no two launches share an identity or a transaction and
  -- token, a launch has one fact, one baseline and one outcome for a horizon and policy at most,
  -- and each of these is about a launch that the ledger holds.
  pub after_all-IsConsistent : (cs : List Call) → IsConsistent (after_all stringify cs empty_store)
  after_all-IsConsistent cs = all-IsConsistent cs empty_store nothing
    where
      nothing : IsConsistent empty_store
      nothing = record {
        launches_apart = tt;
        facts_apart = tt;
        outcomes_apart = tt;
        baselines_apart = tt;
        facts_grounded = refl;
        outcomes_grounded = refl;
        baselines_grounded = refl;
      }
