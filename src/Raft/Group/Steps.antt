-- ===== src/Raft/Group/Steps.antt =====
-- Each handler of a node, and each round of its election, is a move that the invariant allows.
use typesense_python.Base.{
  ℕ, ◌+◌, ◌/◌, ◌≡◌, ◌∙◌, refl, sym, ap, inl, inr, Str, str_eq_refl, Bool, true, false, Option, none,
  some, List, [], ◌∷◌, length, All, leb, ltb, arith, Bool-cases, leb→le,
}
use typesense_python.Raft.Types.{VoteRequest, VoteReply, AppendRequest}
use typesense_python.Raft.Core
use typesense_python.Raft.Core.{RaftCore, is_member}
use typesense_python.Raft.Core.Votes.{
  VoteKept, Unelected, handle_request_vote-VoteKept, handle_request_vote-Granted,
  handle_request_vote-Unelected, handle_append_entries-VoteKept, handle_append_entries-Unelected,
}
use typesense_python.Raft.Runtime.Apply.{Apply}
use typesense_python.Raft.Runtime.Handlers.{handle_append_entries}
use typesense_python.Raft.Runtime.Election.{begin_election, receive_vote}
use typesense_python.Raft.Runtime.Cores.{
  SameBallot, core-handle_append_entries, core-become_leader, core-give_up,
}
use typesense_python.Raft.Group.{Group, cast, vote_of}
use typesense_python.Raft.Group.Invariant.{Inv, Quorum, Passes, length-le-count, voted_is}
use typesense_python.Raft.Group.Moves.{Moved}

module _ {members : List Str} {g : Group} (inv : Inv members g) (n : Str) where
  abbrev core : RaftCore
  core = (g.node n).core

  -- Moves that cast no vote and make no leader.
  pub Moved-Unelected :
      (c' : RaftCore) → VoteKept core c' → Unelected core c' → Moved members g n c' 0 none
  Moved-Unelected c' k u = record {
    ids = u.node_id ∙ inv.ids n;
    groups = u.members ∙ inv.groups n;
    kept = k;
    recorded = λ x e. cc;
    elected = λ l. inr (u.leading l);
  }

  pub Moved-vote :
      (r : VoteRequest) (granted : Bool)
      → (Core.handle_request_vote core r).1.vote_granted ≡ granted
      → Moved members g n
          (Core.handle_request_vote core r).0
          r.term
          (vote_of granted r.candidate_id)
  Moved-vote r granted e =
      let u = handle_request_vote-Unelected core r in
      record {
        ids = u.node_id ∙ inv.ids n;
        groups = u.members ∙ inv.groups n;
        kept = handle_request_vote-VoteKept core r;
        recorded = recorded granted e;
        elected = λ l. inr (u.leading l);
      }
    where
      recorded :
          (b : Bool)
          → (Core.handle_request_vote core r).1.vote_granted ≡ b
          → (x : Str) → vote_of b r.candidate_id ≡ some x
          → ((Core.handle_request_vote core r).0.current_term ≡ r.term)
            × ((Core.handle_request_vote core r).0.voted_for ≡ some x)
      recorded true e x q = let w = handle_request_vote-Granted core r e in (w.term, w.vote ∙ q)
      recorded false e x q = cc

  pub Moved-same :
      (c' c'' : RaftCore)
      → Moved members g n c' 0 none
      → SameBallot c' c''
      → Moved members g n c'' 0 none
  Moved-same c' c'' mv s = record {
    ids = s.node_id ∙ mv.ids;
    groups = s.members ∙ mv.groups;
    kept = record {
      term = rw s.term mv.kept.term;
      vote = λ v e t. s.vote ∙ mv.kept.vote v e (t ∙ s.term);
    };
    recorded = λ x e. cc;
    elected = λ l. rw s.term (mv.elected (sym s.role ∙ l));
  }

  pub Moved-append :
      {M : Type 0} (apply : Apply M) (m : M) (now : ℕ) (r : AppendRequest)
      → Moved members g n (handle_append_entries apply (g.node n) m now r).0.core 0 none
  Moved-append apply m now r =
      Moved-same (Core.handle_append_entries core r).0 _
        (Moved-Unelected _ (handle_append_entries-VoteKept core r)
          (handle_append_entries-Unelected core r))
        (core-handle_append_entries apply (g.node n) m now r)

  pub Moved-refuse :
      (votes : ℕ) (reply : Option VoteReply)
      → ((r : VoteReply) → reply ≡ some r → r.vote_granted ≡ false)
      → Moved members g n (receive_vote (g.node n) votes reply).0.core 0 none
  unfolding receive_vote
  Moved-refuse votes none refused =
      Moved-Unelected core (record { term = omega arith; vote = λ v e t. e })
        (record { node_id = refl; members = refl; leading = λ l. (l, refl) })
  Moved-refuse votes (some reply) refused = elim (Bool-cases (ltb core.current_term reply.term)) [
    | inl newer ↦
        rw (newer, core-give_up)
          (Moved-Unelected _ (record { term = ground arith; vote = λ v e t. ground arith })
            (record { node_id = refl; members = refl; leading = λ l. cc }))
    | inr older ↦
        rw (older, refused reply refl)
          (Moved-Unelected core (record { term = omega arith; vote = λ v e t. e })
            (record { node_id = refl; members = refl; leading = λ l. (l, refl) }))
  ]

  -- A sole member is its own majority.
  Quorum-of_one :
      (ballots : Str → ℕ → Option Str) (t : ℕ)
      → is_member members n ≡ true
      → ballots n t ≡ some n
      → leb (length members / 2 + 1) 1 ≡ true
      → Quorum members ballots t n
  Quorum-of_one ballots t is_in own alone = omega (
    arith,
    leb→le (length members / 2 + 1) 1 alone,
    length-le-count (λ m. voted_is (ballots m t) n) members (n ∷ [])
        ((is_in, rw own (str_eq_refl n)), tt) (refl, tt),
  )

  Quorum-of_supporters :
      (voter : Str)
      → is_member members voter ≡ true
      → is_member (g.supporters n) voter ≡ false
      → g.ballots voter (g.asked n) ≡ some n
      → leb (length members / 2 + 1) (length (g.supporters n) + 1) ≡ true
      → Quorum members g.ballots (g.asked n) n
  Quorum-of_supporters voter is_in fresh voted won =
      let (all, distinct) = inv.supported n in
      omega (
        arith,
        leb→le (length members / 2 + 1) (length (g.supporters n) + 1) won,
        length-le-count (λ m. voted_is (g.ballots m (g.asked n)) n) members (voter ∷ g.supporters n)
            ((is_in, rw voted (str_eq_refl n)), passes (g.supporters n) all) (fresh, distinct),
      )
    where
      passes :
          (l : List Str)
          → All (λ s. (is_member members s ≡ true) × (g.ballots s (g.asked n) ≡ some n)) l
          → Passes (λ m. voted_is (g.ballots m (g.asked n)) n) members l
      passes [] h = tt
      passes (s ∷ l) h = ((h.0.0, rw h.0.1 (str_eq_refl n)), passes l h.1)

  pub Moved-begin :
      is_member members n ≡ true
      → Moved members g n (begin_election (g.node n)).0.core (core.current_term + 1) (some n)
  unfolding begin_election
  Moved-begin is_in =
      let t = core.current_term + 1 in
      let own : cast g.ballots n t (some n) n t ≡ some n = ground (arith, str_eq_refl n) in
      elim (Bool-cases (leb (length core.members / 2 + 1) 1)) [
        | inl alone ↦
            rw (alone, core-become_leader)
              (record {
                ids = inv.ids n;
                groups = inv.groups n;
                kept = record { term = omega arith; vote = λ v e q. absurd (omega arith) };
                recorded = λ x e. (refl, ap some (inv.ids n) ∙ e);
                elected = λ l. inl (
                    Quorum-of_one (cast g.ballots n t (some n)) t is_in own
                      (rw (inv.groups n) at alone));
              })
        | inr more ↦ rw more (record {
          ids = inv.ids n;
          groups = inv.groups n;
          kept = record { term = omega arith; vote = λ v e q. absurd (omega arith) };
          recorded = λ x e. (refl, ap some (inv.ids n) ∙ e);
          elected = λ l. cc;
        })
      ]

  -- The counted votes and one more.
  pub Moved-receive :
      (voter : Str)
      → is_member members voter ≡ true
      → is_member (g.supporters n) voter ≡ false
      → g.ballots voter (g.asked n) ≡ some n
      → core.current_term ≡ g.asked n
      → Moved members g n
          (receive_vote
            (g.node n)
            (length (g.supporters n))
            (some (record { term = g.asked n; vote_granted = true }))).0.core
          0
          none
  unfolding receive_vote
  Moved-receive voter is_in fresh voted same =
      let supporters = voter ∷ g.supporters n in
      let stay : ltb core.current_term (g.asked n) ≡ false = ground arith in
      elim (Bool-cases (leb (length core.members / 2 + 1) (length (g.supporters n) + 1))) [
        | inl won ↦
            rw (stay, won, core-become_leader)
              (record {
                ids = inv.ids n;
                groups = inv.groups n;
                kept = record { term = omega arith; vote = λ v e q. e };
                recorded = λ x e. cc;
                elected = λ l. inl (
                    rw same
                      (Quorum-of_supporters voter is_in fresh voted (rw (inv.groups n) at won)));
              })
        | inr few ↦
            rw (stay, few)
              (Moved-Unelected core (record { term = omega arith; vote = λ v e t. e })
                (record { node_id = refl; members = refl; leading = λ l. (l, refl) }))
      ]
