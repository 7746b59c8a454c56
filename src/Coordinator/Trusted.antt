-- ===== src/Coordinator/Trusted.antt =====
-- src/typesense_lite/coordinator.py with leader_directory.py: whom a command goes to.
use typesense_python.Base.{
  leb, ◌==◌, if◌then◌else◌, Bool-cases, Option-cases, nat_eq, text_eq, ℕ, zero, suc, ◌≡◌, refl, inl,
  inr, true, false, Option, none, some, List, [], arith,
}
use mathlib.Core.Path.{subst}
use typesense_python.Base.Dict.{get, put, get-put, get-remove}
use typesense_python.Base.Result.{Result, ok, raise, Result-cases}
use typesense_python.Base.Result.Error.{
  key_error, value_error, type_error, runtime_error, invalid_parameter,
}
use typesense_python.Schemas.{ℤ, int_eq, int_beq, int_beq_iff, NodeInfo}
use typesense_python.Raft.Types.{RaftCommand}
use typesense_python.Cluster.{ClusterMap, get_shard_voters}
use typesense_python.LeaderDirectory.{
  Ask, Leaders, voters_by_id, refresh_voters, refresh, refreshed, get_leader, invalidate,
}
use typesense_python.LeaderDirectory.Verified.{SaidLeader, Among, Right, refresh_voters_lem}
use typesense_python.Coordinator.{
  CommandReply, Post, SubmitError, Submitted, SubmitRound, judged_round, led_round, submit_round,
  judge, attempt_of, is_success, submit_attempts, submit_raft_command,
}
use typesense_python.Coordinator.Submitted.{delivered, failed}
use typesense_python.Coordinator.SubmitError.{refused}
use typesense_python.Coordinator.SubmitRound.{next, final}
use typesense_python.Coordinator.Attempt.{done, retry}

module _ {W : Type 0} (ask : Ask W) (cluster : ClusterMap) where
  -- A node that votes in the shard and has said that it leads it.
  pub record Trusted (shard : ℤ) (node : NodeInfo) : Type 0 where
    pub said : SaidLeader ask shard node
    pub voters : List NodeInfo
    pub known : get_shard_voters cluster shard ≡ ok voters
    pub among : Among node (voters_by_id [] voters)

  -- All leaders in the cache are trusted.
  abbrev pub AllTrusted : Leaders → Type 0
  AllTrusted leaders =
      (shard : ℤ) (node : NodeInfo) → get leaders shard ≡ some node → Trusted shard node

  invalidate-AllTrusted :
      (leaders : Leaders) (shard : ℤ) → AllTrusted leaders → AllTrusted (invalidate leaders shard)
  unfolding invalidate
  invalidate-AllTrusted leaders shard t k node h =
      t k node (ground (arith, h, get-remove leaders shard k))

  put-AllTrusted :
      (leaders : Leaders) (shard : ℤ) (n : NodeInfo)
      → AllTrusted leaders
      → Trusted shard n
      → AllTrusted (put leaders shard n)
  put-AllTrusted leaders shard n t q k node h = elim (Bool-cases (int_beq shard k)) [
    | inl e ↦
        subst (λ j. Trusted j node) ((int_beq_iff shard k).0 e)
          (subst (Trusted shard) (ground (arith, h, e, get-put leaders shard k n)) q)
    | inr e ↦ t k node (ground (arith, h, e, get-put leaders shard k n))
  ]

  -- What `get_leader` gives: a trusted leader and a cache of trusted leaders.
  abbrev Found : ℤ → W × Leaders × Result NodeInfo → Type 0
  Found shard r = AllTrusted (r.1) × ((node : NodeInfo) → r.2 ≡ ok node → Trusted shard node)

  refresh-Found :
      (w : W) (leaders : Leaders) (shard : ℤ) (ns : List NodeInfo)
      (r : W × Leaders × Option NodeInfo)
      → AllTrusted leaders
      → get_shard_voters cluster shard ≡ ok ns
      → Right ask leaders shard (voters_by_id [] ns) r
      → AllTrusted (r.1) × ((node : NodeInfo) → r.2 ≡ some node → Trusted shard node)
  unfolding invalidate
  refresh-Found w leaders shard ns (w', leaders', none) t e right =
      (rw right (invalidate-AllTrusted leaders shard t), λ node h. absurd (ground arith))
  refresh-Found w leaders shard ns (w', leaders', some n) t e (said, among, p) =
      let q : Trusted shard n = record { said = said; voters = ns; known = e; among = among } in
      (
        rw p (put-AllTrusted leaders shard n t q),
        λ node h. subst (Trusted shard) (ground (arith, h)) q,
      )

  get_leader-Found :
      (w : W) (leaders : Leaders) (shard : ℤ)
      → AllTrusted leaders
      → Found shard (get_leader ask cluster w leaders shard)
  unfolding get_leader refresh
  get_leader-Found w leaders shard t = elim (Option-cases (get leaders shard)) [
    | inr (n, e) ↦ rw (get_leader, e) (t, λ node h. t shard node (ground (arith, h, e)))
    | inl e ↦ elim (Result-cases (get_shard_voters cluster shard)) [
      | inr (x, f) ↦ rw (get_leader, e, f) (t, λ node h. absurd (ground arith))
      | inl (ns, f) ↦
          let r = refresh_voters ask w leaders shard (voters_by_id [] ns) in
          let found =
            refresh-Found w leaders shard ns r t f
              (refresh_voters_lem ask w leaders shard (voters_by_id [] ns)) in
          rw (get_leader, e, f) (found_of r found)
    ]
  ]
    where
      found_of :
          (r : W × Leaders × Option NodeInfo)
          → AllTrusted (r.1) × ((node : NodeInfo) → r.2 ≡ some node → Trusted shard node)
          → Found shard (refreshed ask w leaders (ok r))
      found_of (w', leaders', none) (a, b) = (a, λ node h. absurd (ground arith))
      found_of (w', leaders', some n) (a, b) = (a, λ node h. b node (ground (arith, h)))

  module _ (post : Post W) where
    -- The reply is an acceptance by a trusted node.
    abbrev pub Accepted : ℤ → RaftCommand → Submitted → Type 0
    Accepted shard command (failed e) = Unit
    Accepted shard command (delivered r) =
        (node : NodeInfo) × Trusted shard node
        × ((w : W) × ((post w node shard command).1 ≡ some r))
        × (is_success r.status_code ≡ true)
        × (r.ok ≡ true)

    -- What a round makes of the cache and of the reply.
    abbrev Sound : ℤ → RaftCommand → SubmitRound W → Type 0
    Sound shard command (next w leaders e) = AllTrusted leaders
    Sound shard command (final w leaders end) = AllTrusted leaders × Accepted shard command end

    judge-Sound :
        (w w' : W) (leaders : Leaders) (shard : ℤ) (command : RaftCommand) (node : NodeInfo)
        (reply : Option CommandReply)
        → AllTrusted leaders
        → Trusted shard node
        → (post w' node shard command).1 ≡ reply
        → Sound shard command (judged_round w leaders shard (attempt_of reply))
    unfolding judged_round attempt_of judge
    judge-Sound w w' leaders shard command node none t q e = invalidate-AllTrusted leaders shard t
    judge-Sound w w' leaders shard command node (some r) t q e =
        elim (Bool-cases (r.status_code == 409)) [
          | inl a ↦ rw (judge, a) (invalidate-AllTrusted leaders shard t)
          | inr a ↦ elim (Bool-cases (is_success r.status_code)) [
            | inl b ↦
                rw (judge, a, b)
                  (elim r.ok
                      as (λ k.
                        r.ok ≡ k
                        → Sound shard command
                            (judged_round w leaders shard (if k then done r else retry refused))) [
                              | true ↦ λ c. (t, (node, q, (w', e), b, c))
                              | false ↦ λ c. invalidate-AllTrusted leaders shard t
                            ]
                    refl)
            | inr b ↦ elim (Bool-cases (leb 500 r.status_code)) [
              | inl c ↦ rw (judge, a, b, c) (invalidate-AllTrusted leaders shard t)
              | inr c ↦ rw (judge, a, b, c) (invalidate-AllTrusted leaders shard t, tt)
            ]
          ]
        ]

    led_round-Sound :
        (shard : ℤ) (command : RaftCommand) (r : W × Leaders × Result NodeInfo)
        → Found shard r
        → Sound shard command (led_round ask post cluster (r.0) (r.1) shard command (r.2))
    unfolding led_round
    led_round-Sound shard command (w, leaders, raise runtime_error) (t, q) = t
    led_round-Sound shard command (w, leaders, raise key_error) (t, q) = (t, tt)
    led_round-Sound shard command (w, leaders, raise value_error) (t, q) = (t, tt)
    led_round-Sound shard command (w, leaders, raise type_error) (t, q) = (t, tt)
    led_round-Sound shard command (w, leaders, raise invalid_parameter) (t, q) = (t, tt)
    led_round-Sound shard command (w, leaders, ok node) (t, q) =
        judge-Sound (post w node shard command).0 w leaders shard command node
          (post w node shard command).1 t (q node refl) refl

    submit_attempts-Sound :
        (n : ℕ) (w : W) (leaders : Leaders) (shard : ℤ) (command : RaftCommand)
        (last : Option SubmitError)
        → AllTrusted leaders
        → AllTrusted (submit_attempts ask post cluster n w leaders shard command last).1
          × Accepted shard command
              (submit_attempts ask post cluster n w leaders shard command last).2
    unfolding submit_attempts submit_round
    submit_attempts-Sound zero w leaders shard command none t = (t, tt)
    submit_attempts-Sound zero w leaders shard command (some e) t = (t, tt)
    submit_attempts-Sound (suc n) w leaders shard command last t =
        elim (submit_round ask post cluster w leaders shard command)
            as (λ r.
              Sound shard command r
              → (let out : W × Leaders × Submitted = elim r [
                | next w' leaders' e ↦
                    submit_attempts ask post cluster n w' leaders' shard command (some e)
                | final w' leaders' end ↦ (w', leaders', end)
              ] in
                  AllTrusted (out.1) × Accepted shard command (out.2))) [
                    | next w' leaders' e ↦
                        λ q. submit_attempts-Sound n w' leaders' shard command (some e) q
                    | final w' leaders' end ↦ λ q. q
                  ]
          (led_round-Sound shard command (get_leader ask cluster w leaders shard)
            (get_leader-Found w leaders shard t))

    -- If all leaders in the cache are voters of their shards that have said they lead, they still are
    -- after a submission, and a submission that returns a reply has it from such a node of its shard,
    -- which has answered this very command with a success status and with ok.
    pub submit_raft_command-Accepted :
        (w : W) (leaders : Leaders) (shard : ℤ) (command : RaftCommand)
        → AllTrusted leaders
        → AllTrusted (submit_raft_command ask post cluster w leaders shard command).1
          × Accepted shard command (submit_raft_command ask post cluster w leaders shard command).2
    unfolding submit_raft_command
    submit_raft_command-Accepted w leaders shard command t =
        submit_attempts-Sound 8 w leaders shard command none t
