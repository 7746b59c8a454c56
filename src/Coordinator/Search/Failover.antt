-- ===== src/Coordinator/Search/Failover.antt =====
-- src/typesense_lite/coordinator.py: which node answers for a shard, and what a warning names.
use typesense_python.Base.{
  nat_eq, drop, Str, text_eq, ℕ, zero, suc, ◌≡◌, refl, sym, ap, ◌∙◌, ◌≢◌, ◌⊎◌, inl, inr, Bool, true,
  false, Option, none, some, List, [], ◌∷◌, ◌++◌, append-nil, append_assoc, arith,
}
use mathlib.Core.Path.{subst}
use typesense_python.Schemas.{ℤ, NodeInfo}
use typesense_python.Cluster.{ClusterMap, get_search_candidates}
use typesense_python.HttpClient.{HttpReply}
use typesense_python.Coordinator.Search.{
  RecoveryReply, Refusal, ShardSearch, node_shard_ready, search_node, search_candidates,
  search_shard,
}
use typesense_python.HttpClient.HttpReply.{answered, status_error, failed_call, raised}
use typesense_python.Base.Result.{ok}
use typesense_python.Coordinator.Search.Refusal.{not_ready, unreachable}
use typesense_python.Coordinator.Search.ShardSearch.{found, unavailable, broken}

-- An httpx.HTTPError.
abbrev pub is_error : {A : Type 0} → HttpReply A → Bool
is_error (status_error s) = true
is_error failed_call = true
is_error _ = false

-- What is done with the reply of a node that is ready.
abbrev searched :
    {W H : Type 0} → W → (Refusal → W → W × ShardSearch H) → HttpReply (List H) → W × ShardSearch H
searched w later (answered hits) = (w, found hits)
searched w later raised = (w, broken)
searched w later (status_error s) = later unreachable w
searched w later failed_call = later unreachable w

module _ {W H : Type 0} (state : W → NodeInfo → W × RecoveryReply)
    (query : ℤ → W → NodeInfo → W × HttpReply (List H)) (cluster : ClusterMap) (shard : ℤ) where
  abbrev pub ready : W → NodeInfo → W × Option Bool
  ready w node = node_shard_ready state query cluster w node shard

  abbrev pub sought : W → NodeInfo → W × HttpReply (List H)
  sought w node = search_node state query cluster (ready w node).0 node shard

  -- Some nodes have been asked in turn and refused, which leads from one state to another: a node is not
  -- ready, or it is ready and the request for hits ends with an httpx.HTTPError.
  pub data Tried : W → List NodeInfo → List (Str × Refusal) → W → Type 0 where
    start : {w : W} → Tried w [] [] w
    unready :
        {w w' : W} {nodes : List NodeInfo} {rs : List (Str × Refusal)} (node : NodeInfo)
        → (ready w node).1 ≡ some false
        → Tried (ready w node).0 nodes rs w'
        → Tried w (node ∷ nodes) ((node.id, not_ready) ∷ rs) w'
    silent :
        {w w' : W} {nodes : List NodeInfo} {rs : List (Str × Refusal)} (node : NodeInfo)
        → (ready w node).1 ≡ some true
        → is_error (sought w node).1 ≡ true
        → Tried (sought w node).0 nodes rs w'
        → Tried w (node ∷ nodes) ((node.id, unreachable) ∷ rs) w'

  -- The nodes before this one have refused in turn, and then it has done something.
  pub record Stopped (w : W) (nodes : List NodeInfo) (Act : W → NodeInfo → Type 0) : Type 0 where
    pub refused : List NodeInfo
    pub reasons : List (Str × Refusal)
    pub node : NodeInfo
    pub rest : List NodeInfo
    pub then_ : W
    pub split : nodes ≡ refused ++ (node ∷ rest)
    pub tried : Tried w refused reasons then_
    pub act : Act then_ node

  -- It is ready, and answers with these hits.
  abbrev pub Serves : List H → W → NodeInfo → Type 0
  Serves hits w node = ((ready w node).1 ≡ some true) × ((sought w node).1 ≡ answered hits)

  -- An exception leaves the question whether it is ready, or the request for hits.
  abbrev pub Breaks : W → NodeInfo → Type 0
  Breaks w node =
      ((ready w node).1 ≡ none) ⊎ (((ready w node).1 ≡ some true) × ((sought w node).1 ≡ raised))

  abbrev pub Ended : W → List NodeInfo → List (Str × Refusal) → ShardSearch H → Type 0
  Ended w nodes errors (found hits) = Stopped w nodes (Serves hits)
  Ended w nodes errors (unavailable refusals) =
      (rs : List (Str × Refusal)) × (w' : W) × (refusals ≡ errors ++ rs) × Tried w nodes rs w'
  Ended w nodes errors broken = Stopped w nodes Breaks

  Stopped-next :
      (w w1 : W) (node : NodeInfo) (nodes : List NodeInfo) (why : Refusal)
      (Act : W → NodeInfo → Type 0)
      → ((ns : List NodeInfo) (rs : List (Str × Refusal)) (w' : W)
          → Tried w1 ns rs w'
          → Tried w (node ∷ ns) ((node.id, why) ∷ rs) w')
      → Stopped w1 nodes Act
      → Stopped w (node ∷ nodes) Act
  Stopped-next w w1 node nodes why Act more s = record {
    refused = node ∷ s.refused;
    reasons = (node.id, why) ∷ s.reasons;
    node = s.node;
    rest = s.rest;
    then_ = s.then_;
    split = ap (λ l. node ∷ l) s.split;
    tried = more s.refused s.reasons s.then_ s.tried;
    act = s.act;
  }

  Ended-next :
      (w w1 : W) (node : NodeInfo) (nodes : List NodeInfo) (errors : List (Str × Refusal))
      (why : Refusal) (end : ShardSearch H)
      → ((ns : List NodeInfo) (rs : List (Str × Refusal)) (w' : W)
          → Tried w1 ns rs w'
          → Tried w (node ∷ ns) ((node.id, why) ∷ rs) w')
      → Ended w1 nodes (errors ++ ((node.id, why) ∷ [])) end
      → Ended w (node ∷ nodes) errors end
  Ended-next w w1 node nodes errors why (found hits) more s =
      Stopped-next w w1 node nodes why (Serves hits) more s
  Ended-next w w1 node nodes errors why (unavailable refusals) more (rs, w', e, t) = (
    (node.id, why) ∷ rs,
    w',
    e ∙ append_assoc errors ((node.id, why) ∷ []) rs,
    more nodes rs w' t,
  )
  Ended-next w w1 node nodes errors why broken more s =
      Stopped-next w w1 node nodes why Breaks more s

  here :
      (w : W) (node : NodeInfo) (nodes : List NodeInfo) (Act : W → NodeInfo → Type 0)
      → Act w node
      → Stopped w (node ∷ nodes) Act
  here w node nodes Act a = record {
    refused = [];
    reasons = [];
    node = node;
    rest = nodes;
    then_ = w;
    split = refl;
    tried = start;
    act = a;
  }

  search_candidates-Ended :
      (w : W) (nodes : List NodeInfo) (errors : List (Str × Refusal))
      → Ended w nodes errors (search_candidates state query cluster w shard nodes errors).1
  unfolding search_candidates
  search_candidates-Ended w [] errors = ([], w, sym (append-nil errors), start)
  search_candidates-Ended w (node ∷ nodes) errors =
      let w1 : W = (ready w node).0 in
      let w2 : W = (sought w node).0 in
      let later : Refusal → W → W × ShardSearch H = λ why v.
        search_candidates state query cluster v shard nodes (errors ++ ((node.id, why) ∷ [])) in
      elim (ready w node).1
          as (λ r.
            (ready w node).1 ≡ r
            → (let end : W × ShardSearch H = elim r [
              | none ↦ (w1, broken)
              | some false ↦ later not_ready w1
              | some true ↦ searched w2 later (sought w node).1
            ] in
                Ended w (node ∷ nodes) errors (end.1))) [
                  | none ↦ λ e. here w node nodes Breaks (inl e)
                  | some false ↦ λ e.
                      Ended-next w w1 node nodes errors not_ready _ (λ ns rs v t. unready node e t)
                        (search_candidates-Ended w1 nodes (errors ++ ((node.id, not_ready) ∷ [])))
                  | some true ↦ λ r.
                      elim (sought w node).1
                          as (λ reply.
                            (sought w node).1 ≡ reply
                            → Ended w (node ∷ nodes) errors (searched w2 later reply).1) [
                              | answered hits ↦ λ e. here w node nodes (Serves hits) (r, e)
                              | status_error s ↦ λ e.
                                  Ended-next w w2 node nodes errors unreachable _
                                    (λ ns rs v t. silent node r (ap is_error e) t)
                                    (search_candidates-Ended w2 nodes
                                      (errors ++ ((node.id, unreachable) ∷ [])))
                              | failed_call ↦ λ e.
                                  Ended-next w w2 node nodes errors unreachable _
                                    (λ ns rs v t. silent node r (ap is_error e) t)
                                    (search_candidates-Ended w2 nodes
                                      (errors ++ ((node.id, unreachable) ∷ [])))
                              | raised ↦ λ e. here w node nodes Breaks (inr (r, e))
                            ]
                        refl
                ]
        refl

  -- A shard whose candidates are known is searched in their order, the primary before the replicas. If
  -- it has hits, they are the answer of a candidate that was ready for it, after each candidate before it
  -- was not ready or did not answer. If it has a warning, that lists all candidates, in order, each with
  -- the reason for which it was passed over when it was tried. If an exception ends the search, then it
  -- comes from the first candidate that neither served nor was passed over.
  pub search_shard-Ended :
      (w : W) (nodes : List NodeInfo)
      → get_search_candidates cluster shard ≡ ok nodes
      → Ended w nodes [] (search_shard state query cluster w shard).1
  unfolding search_shard
  search_shard-Ended w nodes e = rw (search_shard, e) (search_candidates-Ended w nodes [])

  -- A node that is always ready for the shard and always answers.
  pub record IsReliable (node : NodeInfo) : Type 0 where
    pub is_ready : (w : W) → (ready w node).1 ≡ some true
    pub answers : (w : W) → (hits : List H) × ((sought w node).1 ≡ answered hits)

  -- No exception leaves the question whether a node is ready, and no request for hits ends with one other
  -- than an httpx.HTTPError.
  abbrev pub NoneRaises : Type 0
  NoneRaises = (w : W) (node : NodeInfo) → ((ready w node).1 ≢ none) × ((sought w node).1 ≢ raised)

  abbrev pub IsFound : ShardSearch H → Type 0
  IsFound end = (hits : List H) × (end ≡ found hits)

  -- A reliable node is not passed over.
  not-Tried :
      (i : ℕ) (w w' : W) (nodes rest : List NodeInfo) (node : NodeInfo) (rs : List (Str × Refusal))
      → IsReliable node
      → drop i nodes ≡ node ∷ rest
      → ¬ Tried w nodes rs w'
  not-Tried zero _ _ _ rest node _ r d start = ground (arith, d)
  not-Tried (suc i) _ _ _ rest node _ r d start = ground (arith, d)
  not-Tried (suc i) _ w' _ rest node _ r d (unready {nodes = nodes} {rs = rs} m e t) =
      not-Tried i _ w' nodes rest node rs r d t
  not-Tried (suc i) _ w' _ rest node _ r d (silent {nodes = nodes} {rs = rs} m e f t) =
      not-Tried i _ w' nodes rest node rs r d t
  not-Tried zero w w' _ rest node _ r d (unready m e t) =
      let same : m ≡ node = ap (λ l. elim l [ [] ↦ m | n ∷ ns ↦ n ]) d in
      let at_m : IsReliable m = subst IsReliable (sym same) r in
      ground (arith, sym (at_m.is_ready w) ∙ e)
  not-Tried zero w w' _ rest node _ r d (silent m e f t) =
      let same : m ≡ node = ap (λ l. elim l [ [] ↦ m | n ∷ ns ↦ n ]) d in
      let at_m : IsReliable m = subst IsReliable (sym same) r in
      let (hits, g) = at_m.answers w in
      let wrong : false ≡ true = sym (ap is_error g) ∙ f in ground (arith, wrong)

  IsFound-by :
      (w : W) (i : ℕ) (nodes rest : List NodeInfo) (node : NodeInfo) (end : ShardSearch H)
      → NoneRaises
      → IsReliable node
      → drop i nodes ≡ node ∷ rest
      → Ended w nodes [] end
      → IsFound end
  IsFound-by w i nodes rest node (found hits) calm r d s = (hits, refl)
  IsFound-by w i nodes rest node (unavailable refusals) calm r d (rs, w', e, t) =
      absurd (not-Tried i w w' nodes rest node rs r d t)
  IsFound-by w i nodes rest node broken calm r d s = elim s.act [
    | inl e ↦ absurd ((calm s.then_ s.node).0 e)
    | inr p ↦ absurd ((calm s.then_ s.node).1 (p.1))
  ]

  -- If no candidate raises and one of them is reliable, the shard is searched without a warning.
  pub search_shard-IsFound :
      (w : W) (i : ℕ) (nodes rest : List NodeInfo) (node : NodeInfo)
      → get_search_candidates cluster shard ≡ ok nodes
      → drop i nodes ≡ node ∷ rest
      → NoneRaises
      → IsReliable node
      → IsFound (search_shard state query cluster w shard).1
  search_shard-IsFound w i nodes rest node e d calm reliable =
      IsFound-by w i nodes rest node _ calm reliable d (search_shard-Ended w nodes e)
