-- ===== src/Coordinator/Attempts.antt =====
-- src/typesense_lite/coordinator.py with leader_directory.py: how many requests a submission makes.
use typesense_python.Base.{
  Bool-cases, Option-cases, nat_eq, length, Str, str_eq, text_eq, ℕ, zero, suc, ◌+◌, ◌*◌, ◌≤◌, ◌≡◌,
  refl, inl, inr, Option, none, some, List, [], ◌∷◌, arith,
}
use typesense_python.Base.Dict.{Dict, get, put}
use typesense_python.Base.Result.{Result, ok, raise}
use typesense_python.Base.Result.Error.{
  key_error, value_error, type_error, runtime_error, invalid_parameter,
}
use typesense_python.Schemas.{ℤ, int_eq, NodeInfo}
use typesense_python.Raft.Types.{RaftCommand}
use typesense_python.Cluster.{ClusterMap, get_shard_voters}
use typesense_python.HttpClient.{HttpReply, get_with_retry, get_attempts}
use typesense_python.HttpClient.HttpReply.{answered, failed_call}
use typesense_python.LeaderDirectory.{
  StateReply, Ask, Leaders, says_leader, next_hint, poll, voters_by_id, try_hint, verify_leader,
  refresh_voters, refresh, refreshed, get_leader,
}
use typesense_python.Coordinator.{
  Post, SubmitError, Submitted, Attempt, SubmitRound, judged_round, led_round, submit_round,
  attempt_of, submit_attempts, submit_raft_command,
}
use typesense_python.Coordinator.SubmitRound.{next, final}
use typesense_python.Coordinator.Attempt.{done, retry, stop}

length-put : (d : Dict Str NodeInfo) (k : Str) (n : NodeInfo) → length (put d k n) ≤ suc (length d)
unfolding put
length-put [] k n = omega arith
length-put ((j, m) ∷ d) k n = elim (Bool-cases (str_eq j k)) [
  | inl e ↦ rw e (omega arith)
  | inr e ↦ rw e (omega (arith, length-put d k n))
]

length-voters_by_id :
    (d : Dict Str NodeInfo) (ns : List NodeInfo) → length (voters_by_id d ns) ≤ length d + length ns
length-voters_by_id d [] = omega arith
length-voters_by_id d (n ∷ ns) =
    omega (arith, length-put d n.id n, length-voters_by_id (put d n.id n) ns)

-- A question is a call of `get_with_retry`: a request that ends with an httpx.HTTPError is made again once.
unfoldable pub retried : {W : Type 0} → (W → ℤ → NodeInfo → W × Option StateReply) → Ask W
retried call w shard node =
    let (w', reply) = get_with_retry (λ v. let (v', r) = call v shard node in (v', reply_of r)) w in
    (w', answer_of reply)
  where
    reply_of : Option StateReply → HttpReply StateReply
    reply_of none = failed_call
    reply_of (some r) = answered r

    answer_of : HttpReply StateReply → Option StateReply
    answer_of (answered r) = some r
    answer_of _ = none

-- `requests` counts the requests of a world.
module _ {W : Type 0} (ask : Ask W) (requests : W → ℕ)
    (asks_twice : (w : W) (shard : ℤ) (n : NodeInfo)
      → requests (ask w shard n).0 ≤ requests w + 2) where
  poll_requests :
      (w : W) (shard : ℤ) (hint : Option Str) (voters : Dict Str NodeInfo)
      → requests (poll ask w shard hint voters).0 ≤ requests w + 2 * length voters
  unfolding poll
  poll_requests w shard hint [] = omega arith
  poll_requests w shard hint ((id, n) ∷ voters) =
      let one = asks_twice w shard n in
      let rest = poll_requests (ask w shard n).0 shard (next_hint (ask w shard n).1 hint) voters in
      elim (Bool-cases (says_leader (ask w shard n).1)) [
        | inl e ↦ rw (poll, e) (omega (arith, one))
        | inr e ↦ rw (poll, e) (omega (arith, one, rest))
      ]

  try_hint_requests :
      (w : W) (leaders : Leaders) (shard : ℤ) (voters : Dict Str NodeInfo) (hint : Option Str)
      → requests (try_hint ask w leaders shard voters hint).0 ≤ requests w + 2
  unfolding try_hint verify_leader
  try_hint_requests w leaders shard voters none = omega arith
  try_hint_requests w leaders shard voters (some id) = elim (Option-cases (get voters id)) [
    | inl e ↦ rw (try_hint, e) (omega arith)
    | inr (n, e) ↦
        let one = asks_twice w shard n in
        elim (Bool-cases (says_leader (ask w shard n).1)) [
          | inl f ↦ rw (try_hint, e, f) (omega (arith, one))
          | inr f ↦ rw (try_hint, e, f) (omega (arith, one))
        ]
  ]

  refresh_voters_requests :
      (w : W) (leaders : Leaders) (shard : ℤ) (voters : Dict Str NodeInfo)
      → requests (refresh_voters ask w leaders shard voters).0
        ≤ requests w + 2 * suc (length voters)
  unfolding refresh_voters
  refresh_voters_requests w leaders shard voters =
      let r = poll ask w shard none voters in
      let polled = poll_requests w shard none voters in
      elim (Option-cases (r.1)) [
        | inl e ↦
            let hinted = try_hint_requests (r.0) leaders shard voters (r.2) in
            rw (refresh_voters, e) (omega (arith, polled, hinted))
        | inr (n, e) ↦ rw (refresh_voters, e) (omega (arith, polled))
      ]

  refreshed_requests :
      (w : W) (leaders : Leaders) (r : W × Leaders × Option NodeInfo)
      → requests (refreshed ask w leaders (ok r)).0 ≡ requests (r.0)
  refreshed_requests w leaders (w', leaders', none) = refl
  refreshed_requests w leaders (w', leaders', some n) = refl

  module _ (post : Post W)
      (posts_once : (w : W) (n : NodeInfo) (shard : ℤ) (c : RaftCommand)
        → requests (post w n shard c).0 ≡ suc (requests w))
      (cluster : ClusterMap) (shard : ℤ) (voters : List NodeInfo)
      (known : get_shard_voters cluster shard ≡ ok voters) where
    get_leader_requests :
        (w : W) (leaders : Leaders)
        → requests (get_leader ask cluster w leaders shard).0 ≤ requests w + 2 * suc (length voters)
    unfolding get_leader refresh
    get_leader_requests w leaders = elim (Option-cases (get leaders shard)) [
      | inr (n, e) ↦ rw (get_leader, e) (omega arith)
      | inl e ↦
          let same =
            refreshed_requests w leaders
              (refresh_voters ask w leaders shard (voters_by_id [] voters)) in
          let cost = refresh_voters_requests w leaders shard (voters_by_id [] voters) in
          let size = length-voters_by_id [] voters in
          rw (get_leader, e, known) (omega (arith, same, cost, size))
    ]

    -- The world that a round leaves has `n` requests at most.
    abbrev AtMost : ℕ → SubmitRound W → Type 0
    AtMost n (next w leaders e) = requests w ≤ n
    AtMost n (final w leaders end) = requests w ≤ n

    judged_round-AtMost :
        (n : ℕ) (w : W) (leaders : Leaders) (a : Attempt)
        → requests w ≤ n
        → AtMost n (judged_round w leaders shard a)
    unfolding judged_round
    judged_round-AtMost n w leaders (done r) h = h
    judged_round-AtMost n w leaders (retry e) h = h
    judged_round-AtMost n w leaders (stop e) h = h

    led_round-AtMost :
        (n : ℕ) (w : W) (leaders : Leaders) (command : RaftCommand) (leader : Result NodeInfo)
        → suc (requests w) ≤ n
        → AtMost n (led_round ask post cluster w leaders shard command leader)
    unfolding led_round
    led_round-AtMost n w leaders command (raise runtime_error) h = omega (arith, h)
    led_round-AtMost n w leaders command (raise key_error) h = omega (arith, h)
    led_round-AtMost n w leaders command (raise value_error) h = omega (arith, h)
    led_round-AtMost n w leaders command (raise type_error) h = omega (arith, h)
    led_round-AtMost n w leaders command (raise invalid_parameter) h = omega (arith, h)
    led_round-AtMost n w leaders command (ok node) h =
        judged_round-AtMost n (post w node shard command).0 leaders
          (attempt_of (post w node shard command).1)
          (omega (arith, h, posts_once w node shard command))

    submit_attempts-AtMost :
        (n : ℕ) (w : W) (leaders : Leaders) (command : RaftCommand) (last : Option SubmitError)
        → requests (submit_attempts ask post cluster n w leaders shard command last).0
          ≤ requests w + n * (2 * length voters + 3)
    unfolding submit_attempts submit_round
    submit_attempts-AtMost zero w leaders command last = omega arith
    submit_attempts-AtMost (suc n) w leaders command last =
        let found = get_leader ask cluster w leaders shard in
        elim (submit_round ask post cluster w leaders shard command)
            as (λ r.
              AtMost (requests w + (2 * length voters + 3)) r
              → (let out : W × Leaders × Submitted = elim r [
                | next w' leaders' e ↦
                    submit_attempts ask post cluster n w' leaders' shard command (some e)
                | final w' leaders' end ↦ (w', leaders', end)
              ] in
                  requests (out.0) ≤ requests w + suc n * (2 * length voters + 3))) [
                    | next w' leaders' e ↦ λ q.
                        let rest = submit_attempts-AtMost n w' leaders' command (some e) in
                        omega (arith, q, rest)
                    | final w' leaders' end ↦ λ q. omega (arith, q)
                  ]
          (led_round-AtMost _ (found.0) (found.1) command (found.2)
            (omega (arith, get_leader_requests w leaders)))

    submit_raft_command_most :
        (w : W) (leaders : Leaders) (command : RaftCommand)
        → requests (submit_raft_command ask post cluster w leaders shard command).0
          ≤ requests w + 8 * (2 * length voters + 3)
    unfolding submit_raft_command
    submit_raft_command_most w leaders command = submit_attempts-AtMost 8 w leaders command none

module _ {W : Type 0} (call : W → ℤ → NodeInfo → W × Option StateReply) (requests : W → ℕ)
    (calls_once : (w : W) (shard : ℤ) (n : NodeInfo)
      → requests (call w shard n).0 ≡ suc (requests w)) where
  retried_twice :
      (w : W) (shard : ℤ) (n : NodeInfo) → requests (retried call w shard n).0 ≤ requests w + 2
  unfolding retried get_with_retry get_attempts
  retried_twice w shard n =
      let w1 = (call w shard n).0 in
      let once = calls_once w shard n in
      let twice = calls_once w1 shard n in
      elim (Option-cases (call w shard n).1) [
        | inr (r, e) ↦ rw (retried, get_with_retry, get_attempts, e) (omega (arith, once))
        | inl e ↦ rw (retried, get_with_retry, get_attempts, e) (omega (arith, once, twice))
      ]

  -- Where a call of a node's Raft state is one request and so is the sending of a command, a submission
  -- for a shard with `n` voters makes at most `8 * (2 * n + 3)` requests, whatever the nodes answer: each
  -- question is asked at most twice, by `get_with_retry`.
  pub submit_raft_command-AtMost :
      (post : Post W)
      → ((w : W) (n : NodeInfo) (shard : ℤ) (c : RaftCommand)
          → requests (post w n shard c).0 ≡ suc (requests w))
      → (cluster : ClusterMap) (shard : ℤ) (voters : List NodeInfo)
      → get_shard_voters cluster shard ≡ ok voters
      → (w : W) (leaders : Leaders) (command : RaftCommand)
      → requests (submit_raft_command (retried call) post cluster w leaders shard command).0
        ≤ requests w + 8 * (2 * length voters + 3)
  submit_raft_command-AtMost post posts_once cluster shard voters known w leaders command =
      submit_raft_command_most (retried call) requests retried_twice post posts_once cluster shard
        voters known w leaders command
