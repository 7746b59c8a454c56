-- ===== src/Recovery/Ready.antt =====
-- src/typesense_lite/recovery.py: when a node says that it is ready.
use typesense_python.Base.{
  ◌==◌, Bool-cases, nat_eq, any, all, Str, text_eq, ℕ, ◌≡◌, refl, sym, ◌↔◌, inl, inr, true, false,
  Option, some, List, [], ◌∷◌, arith,
}
use typesense_python.Base.Dict.{Dict, put}
use typesense_python.Recovery.{
  RecoveryStatus, same_status, ShardReport, NodeRecoveryState, new_state, is_error, reports,
  has_status, aggregate_status, set_shard, fail_shard, shard_is_ready, all_ready, reported_status,
  is_ready,
}
use typesense_python.Recovery.RecoveryStatus.{
  recovering, rebuilding, catching_up, validating, healthy, failed,
}

-- The states that the two methods lead to.
pub data Reached : NodeRecoveryState → Type 0 where
  fresh : Reached new_state
  set : (s : NodeRecoveryState) (k : ℕ) (r : ShardReport) → Reached s → Reached (set_shard s k r)
  fail : (s : NodeRecoveryState) (k : ℕ) (e : Str) → Reached s → Reached (fail_shard s k e)

any_failed :
    (d : Dict ℕ ShardReport) (k : ℕ) (e : Option Str)
    → any
        (has_status failed)
        (reports (put d k (record { status = failed; ready = false; error = e })))
      ≡ true
unfolding put
any_failed [] k e = refl
any_failed ((j, r) ∷ d) k e = elim (Bool-cases (j == k)) [
  | inl h ↦ rw h refl
  | inr h ↦ rw h (ground (arith, any_failed d k e))
]

aggregate_failed :
    (rs : List ShardReport) (e : Option Str)
    → any (has_status failed) rs ≡ true
    → aggregate_status rs e ≡ failed
unfolding aggregate_status
aggregate_failed [] e h = absurd (ground arith)
aggregate_failed (r ∷ rs) e h = ground (arith, h)

Reached-aggregate :
    (s : NodeRecoveryState) → Reached s → s.status ≡ aggregate_status (reports s.shards) s.error
unfolding aggregate_status set_shard fail_shard
Reached-aggregate _ fresh = refl
Reached-aggregate _ (set s k r h) = refl
Reached-aggregate _ (fail s k e h) = sym (
    aggregate_failed
      (reports (put s.shards k (record { status = failed; ready = false; error = some e })))
      (some e) (any_failed s.shards k (some e)))

ready_status :
    (s : RecoveryStatus) (rs : List ShardReport)
    → same_status s healthy ≡ false
    → all shard_is_ready rs ≡ true
    → any (has_status s) rs ≡ false
unfolding shard_is_ready
ready_status s [] n h = refl
ready_status s (r ∷ rs) n h = ground (arith, n, h, ready_status s rs n)

ready_healthy :
    (rs : List ShardReport) → all shard_is_ready rs ≡ true → all (has_status healthy) rs ≡ true
unfolding shard_is_ready
ready_healthy [] h = refl
ready_healthy (r ∷ rs) h = ground (arith, h, ready_healthy rs)

aggregate_ready :
    (rs : List ShardReport) (e : Option Str)
    → all_ready rs ≡ true
    → is_error e ≡ false
    → aggregate_status rs e ≡ healthy
unfolding aggregate_status all_ready
aggregate_ready [] e h n = absurd (ground arith)
aggregate_ready (r ∷ rs) e h n =
    rw
      (
        n,
        ready_status failed (r ∷ rs) refl h,
        ready_status rebuilding (r ∷ rs) refl h,
        ready_status validating (r ∷ rs) refl h,
        ready_status catching_up (r ∷ rs) refl h,
        ready_status recovering (r ∷ rs) refl h,
        ready_healthy (r ∷ rs) h,
      )
      refl

-- Whatever reports and failures have come in, a node says that it is ready exactly when it has shards,
-- all of them say that they are ready and healthy, and no error message is kept.
pub is_ready_iff :
    (s : NodeRecoveryState)
    → Reached s
    → (is_ready s ≡ true) ↔ ((all_ready (reports s.shards) ≡ true) × (is_error s.error ≡ false))
unfolding is_ready reported_status aggregate_status
is_ready_iff s r = (
  λ h. (
    ground (arith, h),
    elim (Bool-cases (is_error s.error)) [
      | inl e ↦ absurd (ground (arith, h, e, Reached-aggregate s r))
      | inr e ↦ e
    ],
  ),
  λ p.
      ground
        (arith, p.0, Reached-aggregate s r, aggregate_ready (reports s.shards) s.error (p.0) (p.1)),
)
