-- ===== src/Raft/Group.antt =====
-- One shard's Raft group: the nodes of raft_runtime.py as a step relation. A step runs one handler of one
-- node to its end, or one round of the loop of `start_election` between two awaits. Messages may be
-- lost, repeated, delayed and reordered: a request may be any, and a vote that was cast may reach its
-- candidate at any later time, once.
pub mod Invariant
pub mod Moves
pub mod Steps
pub mod Safety
use typesense_python.Base.{
  ℕ, ◌+◌, ◌==◌, ◌≡◌, ◌&&◌, Str, str_eq, Bool, true, false, Option, none, some, List, [], ◌∷◌,
  length, if◌then◌else◌,
}
use typesense_python.Raft.Types.{VoteRequest, VoteReply, AppendRequest}
use typesense_python.Raft.Core.{is_member}
use typesense_python.Raft.Runtime.{RaftRuntime}
use typesense_python.Raft.Runtime.Apply.{Apply}
use typesense_python.Raft.Runtime.Handlers.{handle_request_vote, handle_append_entries}
use typesense_python.Raft.Runtime.Election.{begin_election, receive_vote}

abbrev pub update {ℓ} : {A : Type ℓ} → (Str → A) → Str → A → Str → A
update f n a m = if str_eq n m then a else f m

-- `ballots m t` records the candidate that node `m` voted for in term `t`; `asked n` is the term of the
-- request of the running election of node `n`, and `supporters n` are the nodes whose votes it counted.
pub record Group : Type 0 where
  pub node : Str → RaftRuntime
  pub ballots : Str → ℕ → Option Str
  pub asked : Str → ℕ
  pub supporters : Str → List Str

abbrev pub cast : (Str → ℕ → Option Str) → Str → ℕ → Option Str → Str → ℕ → Option Str
cast ballots n term none = ballots
cast ballots n term (some c) = λ m t. if str_eq n m && term == t then some c else ballots m t

abbrev pub vote_of : Bool → Str → Option Str
vote_of true c = some c
vote_of false c = none

module _ {M : Type 0} (apply : Apply M) (members : List Str) where
  pub data Step (g : Group) : Group → Type 0 where
    vote :
        (n : Str) (now : ℕ) (r : VoteRequest)
        → Step g (record g {
          node = update g.node n (handle_request_vote (g.node n) now r).0;
          ballots =
              cast g.ballots n r.term
                (vote_of (handle_request_vote (g.node n) now r).1.vote_granted r.candidate_id);
        })
    append :
        (n : Str) (m : M) (now : ℕ) (r : AppendRequest)
        → Step g
            (record g { node = update g.node n (handle_append_entries apply (g.node n) m now r).0 })
    begin :
        (n : Str)
        → is_member members n ≡ true
        → Step g (record g {
          node = update g.node n (begin_election (g.node n)).0;
          ballots = cast g.ballots n ((g.node n).core.current_term + 1) (some n);
          asked = update g.asked n ((g.node n).core.current_term + 1);
          supporters = update g.supporters n (n ∷ []);
        })
    -- A vote for the running election, which the node receives in the term in which it asked.
    receive :
        (n voter : Str)
        → is_member members voter ≡ true
        → is_member (g.supporters n) voter ≡ false
        → g.ballots voter (g.asked n) ≡ some n
        → (g.node n).core.current_term ≡ g.asked n
        → Step g (record g {
          node =
              update g.node n
                (receive_vote
                  (g.node n)
                  (length (g.supporters n))
                  (some (record { term = g.asked n; vote_granted = true }))).0;
          supporters = update g.supporters n (voter ∷ g.supporters n);
        })
    -- A reply with no vote, or none.
    refuse :
        (n : Str) (votes : ℕ) (reply : Option VoteReply)
        → ((r : VoteReply) → reply ≡ some r → r.vote_granted ≡ false)
        → Step g (record g { node = update g.node n (receive_vote (g.node n) votes reply).0 })

  pub data Reach (g : Group) : Group → Type 0 where
    here : Reach g g
    next : {g' g'' : Group} → Reach g g' → Step g' g'' → Reach g g''
