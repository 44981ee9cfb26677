-- ===== src/Canary/Store/Lifecycle.antt =====
-- The life of a row of src/canary/store.ts: which states follow which, and what never changes.
use sentry_forensic_gate.Base.{
  ◌≡◌, ◌⊎◌, refl, inl, inr, subst, ◌∙◌, Bool, true, false, some, [], ◌∷◌, ◌++◌, arith, Text,
  text_eq_iff, find, update_where, Bool-cases, find_holds, if◌then◌else◌,
}
use sentry_forensic_gate.Canary.Types.{
  CanaryActionRecord, CanaryActionState, skipped, reserved, signed, submitted, included, reverted,
  safe_halt, state_eq,
}
use sentry_forensic_gate.Canary.Store.{Rows, has_id}

-- The states that can follow a state, itself included.
abbrev pub can_follow : CanaryActionState → CanaryActionState → Bool
can_follow reserved skipped = false
can_follow reserved _ = true
can_follow signed reserved = false
can_follow signed skipped = false
can_follow signed _ = true
can_follow submitted submitted = true
can_follow submitted safe_halt = true
can_follow submitted included = true
can_follow submitted reverted = true
can_follow submitted _ = false
can_follow safe_halt safe_halt = true
can_follow safe_halt included = true
can_follow safe_halt reverted = true
can_follow safe_halt _ = false
can_follow included s = state_eq included s
can_follow reverted s = state_eq reverted s
can_follow skipped s = state_eq skipped s

pub can_follow_trans :
    (a b c : CanaryActionState)
    → can_follow a b ≡ true
    → can_follow b c ≡ true
    → can_follow a c ≡ true
can_follow_trans a b c h k = ground arith

-- Once a row is not RESERVED its signed transaction stays.
abbrev pub Frozen : CanaryActionRecord → CanaryActionRecord → Type 0
Frozen r r' =
    (r.state ≡ reserved)
    ⊎ ((r'.nonce ≡ r.nonce)
        × (r'.transaction_hash ≡ r.transaction_hash)
        × (r'.serialized_transaction ≡ r.serialized_transaction))

-- What may become of a row: its identity, decision and intent stay, and its state goes forward.
pub record Evolves (r r' : CanaryActionRecord) : Type 0 where
  pub action : r'.action_id ≡ r.action_id
  pub launch : r'.launch_id ≡ r.launch_id
  pub baseline : r'.baseline_id ≡ r.baseline_id
  pub decided : r'.decision ≡ r.decision
  pub explained : r'.reasons ≡ r.reasons
  pub intended : r'.intent ≡ r.intent
  pub origin : r'.origin_decision_block ≡ r.origin_decision_block
  pub forward : can_follow r.state r'.state ≡ true
  pub frozen : Frozen r r'

pub Evolves-refl : (r : CanaryActionRecord) → Evolves r r
Evolves-refl r = ground arith

only_reserved : (s : CanaryActionState) → can_follow s reserved ≡ true → s ≡ reserved
only_reserved s h = ground arith

pub Evolves-trans : (a b c : CanaryActionRecord) → Evolves a b → Evolves b c → Evolves a c
Evolves-trans a b c h k = record {
  action = cc (h.action, k.action);
  launch = cc (h.launch, k.launch);
  baseline = cc (h.baseline, k.baseline);
  decided = cc (h.decided, k.decided);
  explained = cc (h.explained, k.explained);
  intended = cc (h.intended, k.intended);
  origin = cc (h.origin, k.origin);
  forward = can_follow_trans a.state b.state c.state h.forward k.forward;
  frozen = still h.frozen k.frozen;
}
  where
    still : Frozen a b → Frozen b c → Frozen a c
    still (inl e) l = inl e
    still (inr e) (inl l) =
        inl (only_reserved a.state (subst (λ s. can_follow a.state s ≡ true) l h.forward))
    still (inr e) (inr l) = inr (cc (e.0, l.0), cc (e.1, l.1), cc (e.2, l.2))

pub find-append :
    (id : Text) (rows rest : Rows) (r : CanaryActionRecord)
    → find (has_id id) rows ≡ some r
    → find (has_id id) (rows ++ rest) ≡ some r
find-append id [] rest r h = cc
find-append id (x ∷ rows) rest r h = ground (arith, find-append id rows rest r)

module _ (p : CanaryActionRecord → Bool) (f : CanaryActionRecord → CanaryActionRecord) where
  pub find-update_where :
      (id : Text) (rows : Rows) (r : CanaryActionRecord)
      → ((x : CanaryActionRecord) → (f x).action_id ≡ x.action_id)
      → find (has_id id) rows ≡ some r
      → find (has_id id) (update_where p f rows) ≡ some (if p r then f r else r)
  find-update_where id [] r keeps h = cc
  find-update_where id (x ∷ rows) r keeps h =
      ground (arith, keeps x, find-update_where id rows r keeps)

-- What a call makes of the row with an id.
abbrev pub Carries : Text → CanaryActionRecord → Rows → Type 0
Carries id r rows = (r' : CanaryActionRecord) × (find (has_id id) rows ≡ some r') × Evolves r r'

-- An UPDATE after a lookup, by the state that it writes.
pub update-Carries :
    (id j : Text) (f : CanaryActionRecord → CanaryActionRecord) (rows : Rows)
    (r : CanaryActionRecord)
    → ((x : CanaryActionRecord) → (f x).action_id ≡ x.action_id)
    → find (has_id id) rows ≡ some r
    → (has_id j r ≡ true → Evolves r (f r))
    → Carries id r (update_where (has_id j) f rows)
update-Carries id j f rows r keeps e ev = elim (Bool-cases (has_id j r)) [
  | inl m ↦ (f r, find-update_where (has_id j) f id rows r keeps e ∙ rw m refl, ev m)
  | inr m ↦ (r, find-update_where (has_id j) f id rows r keeps e ∙ rw m refl, Evolves-refl r)
]

-- The row that a call looks up is the row with that id.
pub same_row :
    (id j : Text) (rows : Rows) (r row : CanaryActionRecord)
    → find (has_id id) rows ≡ some r
    → find (has_id j) rows ≡ some row
    → has_id j r ≡ true
    → row ≡ r
same_row id j [] r row e l m = cc
same_row id j (x ∷ rows) r row e l m = ground (
  arith,
  same_row id j rows r row,
  find_holds (has_id id) rows r,
  find_holds (has_id j) rows row,
  text_eq_iff x.action_id id,
  text_eq_iff x.action_id j,
  text_eq_iff r.action_id id,
  text_eq_iff r.action_id j,
  text_eq_iff row.action_id j,
)
