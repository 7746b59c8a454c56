-- ===== src/Raft/Group/Safety.antt =====
-- Election safety: in every reachable state of a group, no two nodes lead in the same term.
use typesense_python.Base.{
  ℕ, ◌+◌, ◌≡◌, ◌∙◌, refl, ap, inl, inr, Str, str_eq, str_eq_iff, str_eq_refl, true, none, some,
  List, [], ◌∷◌, length, arith, Bool-cases,
}
use mathlib.Core.Path.{subst}
use typesense_python.Raft.Types.{initial_state, leader}
use typesense_python.Raft.Core
use typesense_python.Raft.Core.{RaftCore, new_core, is_member}
use typesense_python.Raft.Runtime.Apply.{Apply}
use typesense_python.Raft.Runtime.Handlers.{handle_request_vote, handle_append_entries}
use typesense_python.Raft.Runtime.Election.{begin_election, receive_vote}
use typesense_python.Raft.Runtime.Cores.{core-handle_request_vote, reply-handle_request_vote}
use typesense_python.Raft.Group.{
  Group, update, cast, vote_of, Step, Reach, vote, append, begin, receive, refuse, here, next,
}
use typesense_python.Raft.Group.Invariant.{Inv, Supports, leaders_agree}
use typesense_python.Raft.Group.Steps.{
  Moved-vote, Moved-append, Moved-refuse, Moved-begin, Moved-receive,
}
use typesense_python.Raft.Group.Moves.{Moved, Inv-moved, Supports-stands}

-- A group that has just started: empty logs, term 0, nobody voted.
pub record IsFresh (members : List Str) (g : Group) : Type 0 where
  pub cores : (n : Str) → (g.node n).core ≡ new_core n members initial_state []
  pub no_ballots : (m : Str) (t : ℕ) → g.ballots m t ≡ none
  pub no_supporters : (n : Str) → g.supporters n ≡ []

Inv-fresh : {members : List Str} {g : Group} → IsFresh members g → Inv members g
unfolding new_core
Inv-fresh f = record {
  ids = λ n. rw f.cores refl;
  groups = λ n. rw f.cores refl;
  voted = λ m c e. cc (f.no_ballots m _, e);
  future = λ m t _. f.no_ballots m t;
  elected = λ n l. cc (rw f.cores at l);
  supported = λ n. rw f.no_supporters (tt, tt);
}

module _ {M : Type 0} (apply : Apply M) (members : List Str) where
  pub Step-Inv : {g g' : Group} → Step apply members g g' → Inv members g → Inv members g'
  Step-Inv {g} (vote n now r) inv =
      let rt = (handle_request_vote (g.node n) now r).0 in
      let v = vote_of (handle_request_vote (g.node n) now r).1.vote_granted r.candidate_id in
      let mv : Moved members g n rt.core r.term v =
        rw (core-handle_request_vote, reply-handle_request_vote)
          (Moved-vote inv n r (Core.handle_request_vote (g.node n).core r).1.vote_granted refl) in
      Inv-moved n rt r.term v g.asked g.supporters inv mv
        (λ a. Supports-stands inv v mv a (g.asked a) (g.supporters a) (inv.supported a))
  Step-Inv {g} (append n m now r) inv =
      let mv = Moved-append inv n apply m now r in
      Inv-moved n (handle_append_entries apply (g.node n) m now r).0 0 none g.asked g.supporters inv
        mv inv.supported
  Step-Inv {g} (begin n is_in) inv =
      let t = (g.node n).core.current_term + 1 in
      let mv = Moved-begin inv n is_in in
      let own : cast g.ballots n t (some n) n t ≡ some n = ground (arith, str_eq_refl n) in
      Inv-moved n (begin_election (g.node n)).0 t (some n) (update g.asked n t)
        (update g.supporters n (n ∷ [])) inv mv
        λ a. elim (Bool-cases (str_eq n a)) [
          | inl self ↦
              let e = (str_eq_iff n a).0 self in
              rw self (((is_in, own ∙ ap some e), tt), (refl, tt))
          | inr other ↦
              rw other
                (Supports-stands inv (some n) mv a (g.asked a) (g.supporters a) (inv.supported a))
        ]
  Step-Inv {g} (receive n voter is_in fresh voted same) inv =
      Inv-moved n
        (receive_vote (g.node n) (length (g.supporters n))
          (some (record { term = g.asked n; vote_granted = true }))).0
        0 none g.asked (update g.supporters n (voter ∷ g.supporters n)) inv
        (Moved-receive inv n voter is_in fresh voted same)
        λ a. elim (Bool-cases (str_eq n a)) [
          | inl self ↦ rw self (
              subst (λ k. Supports members g.ballots k (g.asked k) (voter ∷ g.supporters n))
                ((str_eq_iff n a).0 self)
                (((is_in, voted), (inv.supported n).0), (fresh, (inv.supported n).1)))
          | inr other ↦ rw other (inv.supported a)
        ]
  Step-Inv {g} (refuse n votes reply refused) inv =
      Inv-moved n (receive_vote (g.node n) votes reply).0 0 none g.asked g.supporters inv
        (Moved-refuse inv n votes reply refused) inv.supported

  pub Reach-Inv : {g g' : Group} → Inv members g → Reach apply members g g' → Inv members g'
  Reach-Inv inv here = inv
  Reach-Inv inv (next r st) = Step-Inv st (Reach-Inv inv r)

  -- From a fresh group, no sequence of handlers, votes and elections makes two nodes leaders of the
  -- same term, as long as each candidate counts a vote in the term in which it asked for it.
  pub election_safety :
      {g g' : Group} (a b : Str)
      → IsFresh members g
      → Reach apply members g g'
      → (g'.node a).core.role ≡ leader
      → (g'.node b).core.role ≡ leader
      → (g'.node a).core.current_term ≡ (g'.node b).core.current_term
      → a ≡ b
  election_safety {g' = g'} a b fresh r la lb same =
      leaders_agree members g' a b (Reach-Inv (Inv-fresh fresh) r) la lb same
