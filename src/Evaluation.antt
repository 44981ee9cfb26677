-- ===== src/Evaluation.antt =====
-- src/evaluation: the vet of a candidate, and the evaluation of the creator signal.
pub mod FastVet
pub mod CreatorSignal
