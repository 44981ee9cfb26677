-- ===== src/Outcome/Horizon/First.antt =====
-- On a chain that stands still while it is read, with timestamps that never fall, the search of
-- src/runtime/forwardOutcomes.ts ends and finds the first block at or after the target.
use sentry_forensic_gate.Base.{
  ℕ, ap, sym, ◌⊎◌, ==_iff, ltb→lt, leb→le, zero, suc, ◌+◌, ◌-◌, ◌/◌, ◌≤◌, ◌<◌, ◌≡◌, refl, inl, inr,
  none, some, arith, ltb, leb, ◌==◌, Bool-cases,
}
use sentry_forensic_gate.Base.Result.{ok}
use sentry_forensic_gate.Outcome.Source.{OutcomeBlockPoint, ForwardOutcomeSource}
use sentry_forensic_gate.Outcome.Horizon.{
  read_mid, search_loop, find_first_block_at_or_after_timestamp,
}

-- Every read of a block gives the one point, and time does not run back.
pub record IsSteady (source : ForwardOutcomeSource) (chain : ℕ → OutcomeBlockPoint) : Type 0 where
  pub reads : (t n : ℕ) → source.get_block_point t n ≡ ok (chain n)
  pub rises : (m n : ℕ) → m ≤ n → (chain m).timestamp_ms ≤ (chain n).timestamp_ms

-- Block `n` is the first from `low` on that is not before the target.
pub record IsFirst (chain : ℕ → OutcomeBlockPoint) (low high target n : ℕ) : Type 0 where
  pub above : low ≤ n
  pub below : n ≤ high
  pub reached : target ≤ (chain n).timestamp_ms
  pub minimal : (m : ℕ) → low ≤ m → m < n → (chain m).timestamp_ms < target

module _ (source : ForwardOutcomeSource) (chain : ℕ → OutcomeBlockPoint)
    (steady : IsSteady source chain) (low_block high_block target : ℕ) where
  read_mid_steady :
      (mid t : ℕ)
      → (t' : ℕ) × (read_mid source high_block (chain high_block) target mid t
          ≡ (ok (chain mid), t'))
  unfolding read_mid
  read_mid_steady mid t = elim (Bool-cases (mid == high_block)) [
    | inl e ↦ (t, rw e (ap (λ n. (ok (chain n), t)) (sym ((==_iff mid high_block).0 e))))
    | inr e ↦ (suc t, rw (e, steady.reads t mid) refl)
  ]

  -- A block before the target lies before every block that is not.
  earlier : (m a : ℕ) → (chain m).timestamp_ms < target → target ≤ (chain a).timestamp_ms → m < a
  earlier m a h k = elim (Bool-cases (ltb m a)) [
    | inl l ↦ ltb→lt m a l
    | inr l ↦ absurd (omega (arith, steady.rises a m (ground arith)))
  ]

  -- The loop from any interval that still holds the first block, or ends just before it.
  loop-IsFirst :
      (fuel low high a t : ℕ)
      → high + 1 < low + fuel
      → low_block ≤ low
      → low ≤ a
      → a ≤ high + 1
      → a ≤ high_block
      → high ≤ high_block
      → target ≤ (chain a).timestamp_ms
      → ((m : ℕ) → low_block ≤ m → m < low → (chain m).timestamp_ms < target)
      → (n : ℕ) × (t' : ℕ) × (search_loop source high_block
            (chain high_block)
            target
            fuel
            low
            high
            (chain a)
            t
          ≡ (ok (chain n), t'))
        × IsFirst chain low_block high_block target n
  unfolding search_loop
  loop-IsFirst zero low high a t f l1 l2 l3 l4 l6 l5 before = absurd (omega arith)
  loop-IsFirst (suc fuel) low high a t f l1 l2 l3 l4 l6 l5 before =
      elim (Bool-cases (leb low high)) [
        | inr out ↦ (
          a,
          t,
          rw out refl,
          record {
            above = omega arith;
            below = l4;
            reached = l5;
            minimal = λ m h k. before m h (ground arith);
          },
        )
        | inl inside ↦
            let mid = low + (high - low) / 2 in
            let b : low + (high - low) / 2 ≤ high = ground arith in
            let (t', e) = read_mid_steady mid t in
            elim (Bool-cases (leb target (chain mid).timestamp_ms)) [
              | inl hit ↦ elim (Bool-cases (mid == 0)) [
                | inl z ↦ (
                  mid,
                  t',
                  ground (arith, e),
                  record {
                    above = omega arith;
                    below = ground arith;
                    reached = leb→le _ _ hit;
                    minimal = λ m h k. absurd (ground arith);
                  },
                )
                | inr nz ↦
                    let (n, t'', q, first) =
                      loop-IsFirst fuel low (mid - 1) mid t' (ground arith) l1 (omega arith)
                        (ground arith) (ground arith) (ground arith) (leb→le _ _ hit) before in
                    (n, t'', ground (arith, e, q), first)
              ]
              | inr miss ↦
                  let late : (chain mid).timestamp_ms < target = ground arith in
                  let (n, t'', q, first) =
                    loop-IsFirst fuel (mid + 1) high a t' (ground arith) (omega arith)
                      (omega (arith, earlier mid a late l5)) l3 l4 l6 l5
                      (λ m h k. omega (arith, steady.rises m mid (omega arith))) in
                  (n, t'', ground (arith, e, q), first)
            ]
      ]

  -- If the blocks from `low_block` to `high_block` reach the target, the search returns the first of
  -- them that is at or after it; if there are none or the last is before the target, it returns null.
  pub find_first_block_lem :
      (t : ℕ)
      → ((low_block ≤ high_block)
          × (target ≤ (chain high_block).timestamp_ms)
          × ((n : ℕ) × (t' : ℕ) × (find_first_block_at_or_after_timestamp source low_block
                  high_block target t
                ≡ (ok (some (chain n)), t'))
              × IsFirst chain low_block high_block target n))
        ⊎ (((high_block < low_block) ⊎ ((chain high_block).timestamp_ms < target))
            × ((find_first_block_at_or_after_timestamp source low_block high_block target t).0
                ≡ ok none))
  unfolding find_first_block_at_or_after_timestamp
  find_first_block_lem t = elim (Bool-cases (ltb high_block low_block)) [
    | inl empty ↦ inr (inl (ltb→lt _ _ empty), rw empty refl)
    | inr some_blocks ↦ elim (Bool-cases (ltb (chain high_block).timestamp_ms target)) [
      | inl early ↦
          inr (inr (ltb→lt _ _ early), rw (some_blocks, steady.reads t high_block, early) refl)
      | inr reached ↦
          let ends : target ≤ (chain high_block).timestamp_ms = ground arith in
          let (n, t', q, first) =
            loop-IsFirst (high_block + 2 - low_block) low_block high_block high_block (suc t)
              (ground arith) (omega arith) (ground arith) (omega arith) (omega arith) (omega arith)
              ends (λ m h k. absurd (omega arith)) in
          inl (ground arith, ends, (n, t', ground (arith, steady.reads t high_block, q), first))
    ]
  ]
