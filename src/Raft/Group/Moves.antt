-- ===== src/Raft/Group/Moves.antt =====
-- A change of one node that keeps votes and terms keeps the invariant of the group.
use typesense_python.Base.{
  ℕ, ◌<◌, ◌≡◌, ◌∙◌, refl, sym, ◌⊎◌, inl, inr, ◌&&◌, Str, str_eq, str_eq_iff, str_eq_refl, true,
  false, Option, none, some, List, [], ◌∷◌, ◌==◌, arith, Bool-cases, Option-cases,
}
use mathlib.Core.Path.{subst}
use native.Mathlib.Decide.{dec_lt}
use typesense_python.Raft.Types.{leader}
use typesense_python.Raft.Core.{RaftCore}
use typesense_python.Raft.Core.Votes.{VoteKept}
use typesense_python.Raft.Runtime.{RaftRuntime}
use typesense_python.Raft.Group.{Group, update, cast}
use typesense_python.Raft.Group.Invariant.{Inv, Quorum, Supports, voted_is, voted_is→eq, count-le}

-- Node `n` goes to the state `c'`, and votes for `vote` in `term` if that is a node.
pub record Moved (members : List Str) (g : Group) (n : Str) (c' : RaftCore) (term : ℕ)
    (vote : Option Str) : Type 0 where
  pub ids : c'.node_id ≡ n
  pub groups : c'.members ≡ members
  pub kept : VoteKept (g.node n).core c'
  pub recorded : (x : Str) → vote ≡ some x → (c'.current_term ≡ term) × (c'.voted_for ≡ some x)
  pub elected :
      c'.role ≡ leader
      → Quorum members (cast g.ballots n term vote) c'.current_term n
        ⊎ (((g.node n).core.role ≡ leader) × ((g.node n).core.current_term ≡ c'.current_term))

module _ {members : List Str} {g : Group} {n : Str} {c' : RaftCore} {term : ℕ}
    (inv : Inv members g) where
  -- What was voted in the new term stands.
  vote_stands :
      {vote : Option Str}
      → Moved members g n c' term vote
      → (x : Str) → g.ballots n c'.current_term ≡ some x
      → c'.voted_for ≡ some x
  vote_stands mv x e = elim (dec_lt (g.node n).core.current_term c'.current_term) [
    | yes later ↦ cc (inv.future n c'.current_term later)
    | no same ↦
        let t : (g.node n).core.current_term ≡ c'.current_term = omega (arith, mv.kept.term) in
        mv.kept.vote x (inv.voted n x (rw t e)) t
  ]

  -- Ballots are never changed.
  pub ballots_stand :
      (vote : Option Str)
      → Moved members g n c' term vote
      → (m : Str) (t : ℕ) (x : Str) → g.ballots m t ≡ some x
      → cast g.ballots n term vote m t ≡ some x
  ballots_stand none mv m t x e = e
  ballots_stand (some v) mv m t x e = elim (Bool-cases (str_eq n m && term == t)) [
    | inr other ↦ rw other e
    | inl this ↦ rw this (ballot_is_vote this)
  ]
    where
      ballot_is_vote : (str_eq n m && term == t) ≡ true → some v ≡ some x
      ballot_is_vote this =
          let here : n ≡ m = (str_eq_iff n m).0 (ground arith) in
          let now : term ≡ t = ground arith in
          let (at_term, voted) = mv.recorded v refl in
          let old : g.ballots n c'.current_term ≡ some x = rw (at_term, now, here) e in
          sym voted ∙ vote_stands mv x old

  Quorum-stands :
      (vote : Option Str)
      → Moved members g n c' term vote
      → (t : ℕ) (x : Str) → Quorum members g.ballots t x
      → Quorum members (cast g.ballots n term vote) t x
  Quorum-stands vote mv t x q = omega (
    arith,
    count-le (λ m. voted_is (g.ballots m t) x) (λ m. voted_is (cast g.ballots n term vote m t) x)
        members stands,
  )
    where
      stands :
          (m : Str)
          → voted_is (g.ballots m t) x ≡ true
          → voted_is (cast g.ballots n term vote m t) x ≡ true
      stands m h = rw (ballots_stand vote mv m t x (voted_is→eq _ x h)) (str_eq_refl x)

  pub Supports-stands :
      (vote : Option Str)
      → Moved members g n c' term vote
      → (a : Str) (t : ℕ) (l : List Str) → Supports members g.ballots a t l
      → Supports members (cast g.ballots n term vote) a t l
  Supports-stands vote mv a t [] s = (tt, tt)
  Supports-stands vote mv a t (x ∷ l) s =
      let rest = Supports-stands vote mv a t l (s.0.1, s.1.1) in
      (((s.0.0.0, ballots_stand vote mv x t a s.0.0.1), rest.0), (s.1.0, rest.1))

-- The group after the move, with the elections' books given.
abbrev pub moved : Group → Str → RaftRuntime → ℕ → Option Str → (Str → ℕ) → (Str → List Str) → Group
moved g n rt term vote asked supporters = record {
  node = update g.node n rt;
  ballots = cast g.ballots n term vote;
  asked = asked;
  supporters = supporters;
}

module _ {members : List Str} {g : Group} (n : Str) (rt : RaftRuntime) (term : ℕ)
    (vote : Option Str) (asked : Str → ℕ) (supporters : Str → List Str) (inv : Inv members g)
    (mv : Moved members g n rt.core term vote) where
  abbrev g' : Group
  g' = moved g n rt term vote asked supporters

  -- A property of nodes that holds of the new node and of the old ones.
  everywhere :
      (P : Str → RaftRuntime → Type 0)
      → P n rt
      → ((m : Str) → str_eq n m ≡ false → P m (g.node m))
      → (m : Str) → P m (g'.node m)
  everywhere P new old m = elim (Bool-cases (str_eq n m)) [
    | inl here ↦ rw here (subst (λ k. P k rt) ((str_eq_iff n m).0 here) new)
    | inr there ↦ rw there (old m there)
  ]

  cast_other :
      (m : Str) (t : ℕ) → str_eq n m ≡ false → cast g.ballots n term vote m t ≡ g.ballots m t
  cast_other m t other = ground arith

  voted-moved :
      (c : Str)
      → cast g.ballots n term vote n rt.core.current_term ≡ some c
      → rt.core.voted_for ≡ some c
  voted-moved c e = elim (Option-cases vote) [
    | inl no_vote ↦ vote_stands inv mv c (rw no_vote at e)
    | inr (v, voted) ↦
        let (now, for_v) = mv.recorded v voted in
        ground (arith, str_eq_refl n, now, for_v, e, voted)
  ]

  future-moved : (t : ℕ) → rt.core.current_term < t → cast g.ballots n term vote n t ≡ none
  future-moved t later =
      let old : g.ballots n t ≡ none = inv.future n t (omega (arith, mv.kept.term)) in
      elim (Option-cases vote) [
        | inl no_vote ↦ rw no_vote old
        | inr (v, voted) ↦ let (now, for_v) = mv.recorded v voted in ground (arith, now, old, voted)
      ]

  elected-moved :
      rt.core.role ≡ leader → Quorum members (cast g.ballots n term vote) rt.core.current_term n
  elected-moved l = elim (mv.elected l) [
    | inl won ↦ won
    | inr (was, same) ↦ rw (← same) (Quorum-stands inv vote mv _ n (inv.elected n was))
  ]

  pub Inv-moved :
      ((a : Str) → Supports members (cast g.ballots n term vote) a (asked a) (supporters a))
      → Inv members g'
  Inv-moved sup = record {
    ids = everywhere (λ m x. x.core.node_id ≡ m) mv.ids (λ m _. inv.ids m);
    groups = everywhere (λ m x. x.core.members ≡ members) mv.groups (λ m _. inv.groups m);
    voted =
        everywhere
          (λ m x.
            (c : Str)
            → cast g.ballots n term vote m x.core.current_term ≡ some c
            → x.core.voted_for ≡ some c)
          voted-moved (λ m other c e. inv.voted m c (sym (cast_other m _ other) ∙ e));
    future =
        everywhere
          (λ m x. (t : ℕ) → x.core.current_term < t → cast g.ballots n term vote m t ≡ none)
          future-moved (λ m other t later. cast_other m t other ∙ inv.future m t later);
    elected =
        everywhere
          (λ m x.
            x.core.role ≡ leader
            → Quorum members (cast g.ballots n term vote) x.core.current_term m)
          elected-moved (λ m _ l. Quorum-stands inv vote mv _ m (inv.elected m l));
    supported = sup;
  }
