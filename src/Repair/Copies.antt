-- ===== src/Repair/Copies.antt =====
-- src/typesense_lite/repair.py: what the copying of the missing documents does to a replica.
use typesense_python.Base.{
  if◌then◌else◌, Bool-cases, Option-cases, nat_eq, Str, str_eq, str_eq_refl, str_eq_iff, text_eq,
  ◌≡◌, refl, sym, ◌∙◌, ◌⊎◌, inl, inr, Bool, true, false, ◌&&◌, ◌||◌, Option, some, List, [], ◌∷◌,
  ◌++◌, append-nil, append_assoc, arith,
}
use mathlib.Core.Path.{subst}
use typesense_python.Schemas.{ℤ, Document, NodeInfo}
use typesense_python.Index.{document_id}
use typesense_python.Cluster.{ClusterMap}
use typesense_python.Repair.{NodeApi, is_among, copy_document, copy_documents}

-- This document of this node, among all nodes and documents.
abbrev pub is_at : Str → Str → Str → Str → Bool
is_at n id m d = str_eq n m && str_eq id d

-- What the nodes promise: `held w n d` is the document `d` on the node `n`. A write that fails may have
-- been carried out.
pub record NodeLaws {W : Type 0} (api : NodeApi W) (shard : ℤ) (collection : Str) : Type 0 where
  pub held : W → Str → Str → Option Document
  pub identified :
      (w : W) (n d : Str) (document : Document)
      → held w n d ≡ some document
      → document_id document ≡ some d
  pub fetch_keeps :
      (w : W) (n : NodeInfo) (id m d : Str)
      → held (api.fetch w n shard collection id).0 m d ≡ held w m d
  pub fetch_found :
      (w : W) (n : NodeInfo) (id : Str) (document : Document)
      → (api.fetch w n shard collection id).1 ≡ some document
      → held w n.id id ≡ some document
  pub store_elsewhere :
      (w : W) (n : NodeInfo) (id m d : Str) (document : Document)
      → document_id document ≡ some id
      → is_at n.id id m d ≡ false
      → held (api.store w n shard collection document).0 m d ≡ held w m d
  pub store_done :
      (w : W) (n : NodeInfo) (id : Str) (document : Document)
      → document_id document ≡ some id
      → (api.store w n shard collection document).1 ≡ true
      → held (api.store w n shard collection document).0 n.id id ≡ some document
  pub store_failed :
      (w : W) (n : NodeInfo) (id : Str) (document : Document)
      → document_id document ≡ some id
      → (held (api.store w n shard collection document).0 n.id id ≡ held w n.id id)
        ⊎ (held (api.store w n shard collection document).0 n.id id ≡ some document)

-- A list is shared out between two, in its order.
pub data Shared : List Str → List Str → List Str → Type 0 where
  nothing : Shared [] [] []
  first : {ids r f : List Str} (id : Str) → Shared ids r f → Shared (id ∷ ids) (id ∷ r) f
  second : {ids r f : List Str} (id : Str) → Shared ids r f → Shared (id ∷ ids) r (id ∷ f)

module _ {W : Type 0} (api : NodeApi W) (cluster : ClusterMap) (collection : Str) (shard : ℤ)
    (laws : NodeLaws api shard collection) (primary node : NodeInfo)
    (apart : str_eq node.id primary.id ≡ false) where
  -- The replica holds what the primary holds.
  abbrev pub Agrees : W → Str → Type 0
  Agrees w d = laws.held w node.id d ≡ laws.held w primary.id d

  record CopyDone (w : W) (id : Str) (w' : W) (copied : Bool) : Type 0 where
    elsewhere : (m d : Str) → is_at node.id id m d ≡ false → laws.held w' m d ≡ laws.held w m d
    done : copied ≡ true → laws.held w' node.id id ≡ laws.held w primary.id id
    either :
        (laws.held w' node.id id ≡ laws.held w node.id id)
        ⊎ (laws.held w' node.id id ≡ laws.held w primary.id id)

  stored_lem :
      (w w' : W) (id : Str) (document : Document)
      → ((m d : Str) → laws.held w' m d ≡ laws.held w m d)
      → laws.held w primary.id id ≡ some document
      → CopyDone w id
          (api.store w' node shard collection document).0
          (api.store w' node shard collection document).1
  stored_lem w w' id document keeps found =
      let named = laws.identified w primary.id id document found in
      record {
        elsewhere = λ m d h. laws.store_elsewhere w' node id m d document named h ∙ keeps m d;
        done = λ h. laws.store_done w' node id document named h ∙ sym found;
        either = elim (laws.store_failed w' node id document named) [
          | inl e ↦ inl (e ∙ keeps node.id id)
          | inr e ↦ inr (e ∙ sym found)
        ];
      }

  copy_document-CopyDone :
      (w : W) (id : Str)
      → (let out = copy_document api cluster collection w primary node shard id in
          CopyDone w id (out.0) (out.1))
  unfolding copy_document
  copy_document-CopyDone w id =
      let keeps : (m d : Str)
          → laws.held (api.fetch w primary shard collection id).0 m d ≡ laws.held w m d =
        λ m d. laws.fetch_keeps w primary id m d in
      elim (Option-cases (api.fetch w primary shard collection id).1) [
        | inl e ↦
            rw (copy_document, e)
              (record {
                elsewhere = λ m d h. keeps m d;
                done = λ h. absurd (ground (arith, h));
                either = inl (keeps node.id id);
              })
        | inr (document, e) ↦
            rw (copy_document, e)
              (stored_lem w (api.fetch w primary shard collection id).0 id document keeps
                (laws.fetch_found w primary id document e))
      ]

  primary_kept :
      (w w' : W) (id d : Str) (b : Bool)
      → CopyDone w id w' b
      → laws.held w' primary.id d ≡ laws.held w primary.id d
  primary_kept w w' id d b c = c.elsewhere primary.id d (rw apart refl)

  Agrees-CopyDone :
      (w w' : W) (id d : Str) (b : Bool) → CopyDone w id w' b → Agrees w d → Agrees w' d
  Agrees-CopyDone w w' id d b c a = elim (Bool-cases (str_eq id d)) [
    | inl q ↦
        let same = primary_kept w w' id d b c in
        let moved : laws.held w' node.id d ≡ laws.held w primary.id d =
          subst
            (λ i.
              laws.held w node.id i ≡ laws.held w primary.id i
              → laws.held w' node.id i ≡ laws.held w primary.id i)
            ((str_eq_iff id d).0 q) (λ x. elim c.either [ inl e ↦ e ∙ x | inr e ↦ e ]) a in
        moved ∙ sym same
    | inr q ↦
        c.elsewhere node.id d (rw (str_eq_refl node.id, q) refl)
        ∙ a
        ∙ sym (primary_kept w w' id d b c)
  ]

  -- What has become of a list of missing documents: some are copied, some have failed.
  pub record Copied (w : W) (ids before_repaired before_failed : List Str)
      (out : W × List Str × List Str) : Type 0 where
    pub repaired : List Str
    pub failed : List Str
    pub lists : (out.1 ≡ before_repaired ++ repaired) × (out.2 ≡ before_failed ++ failed)
    pub shared : Shared ids repaired failed
    pub agree : (d : Str) → is_among d repaired ≡ true → Agrees (out.0) d
    pub stays : (d : Str) → Agrees w d → Agrees (out.0) d
    pub others :
        (m d : Str)
        → (str_eq node.id m && is_among d ids) ≡ false
        → laws.held (out.0) m d ≡ laws.held w m d

  right_true : (a b : Bool) → a ≡ false → (a || b) ≡ true → b ≡ true
  right_true true b q h = absurd (ground (arith, q))
  right_true false b q h = h

  and_or : (a x y : Bool) → (a && (x || y)) ≡ false → ((a && x) ≡ false) × ((a && y) ≡ false)
  and_or true true y h = absurd (ground (arith, h))
  and_or true false y h = (refl, h)
  and_or false x y h = (refl, refl)

  Copied-step :
      (w w' : W) (id : Str) (ids rep fail : List Str) (b : Bool) (out : W × List Str × List Str)
      → CopyDone w id w' b
      → Copied w' ids
          (if b then rep ++ (id ∷ []) else rep)
          (if b then fail else fail ++ (id ∷ []))
          out
      → Copied w (id ∷ ids) rep fail out
  Copied-step w w' id ids rep fail true out c r = record {
    repaired = id ∷ r.repaired;
    failed = r.failed;
    lists = (r.lists.0 ∙ append_assoc rep (id ∷ []) r.repaired, r.lists.1);
    shared = first id r.shared;
    agree = λ d h. elim (Bool-cases (str_eq id d)) [
      | inl q ↦ r.stays d (
          subst (Agrees w') ((str_eq_iff id d).0 q)
            (c.done refl ∙ sym (primary_kept w w' id id true c)))
      | inr q ↦ r.agree d (right_true (str_eq id d) (is_among d r.repaired) q h)
    ];
    stays = λ d a. r.stays d (Agrees-CopyDone w w' id d true c a);
    others = λ m d h.
        let (x, y) = and_or (str_eq node.id m) (str_eq id d) (is_among d ids) h in
        r.others m d y ∙ c.elsewhere m d x;
  }
  Copied-step w w' id ids rep fail false out c r = record {
    repaired = r.repaired;
    failed = id ∷ r.failed;
    lists = (r.lists.0, r.lists.1 ∙ append_assoc fail (id ∷ []) r.failed);
    shared = second id r.shared;
    agree = r.agree;
    stays = λ d a. r.stays d (Agrees-CopyDone w w' id d false c a);
    others = λ m d h.
        let (x, y) = and_or (str_eq node.id m) (str_eq id d) (is_among d ids) h in
        r.others m d y ∙ c.elsewhere m d x;
  }

  copy_documents-Copied :
      (w : W) (ids rep fail : List Str)
      → Copied w ids rep fail
          (copy_documents api cluster collection w primary node shard ids rep fail)
  unfolding copy_documents
  copy_documents-Copied w [] rep fail = record {
    repaired = [];
    failed = [];
    lists = (sym (append-nil rep), sym (append-nil fail));
    shared = nothing;
    agree = λ d h. absurd (ground (arith, h));
    stays = λ d a. a;
    others = λ m d h. refl;
  }
  copy_documents-Copied w (id ∷ ids) rep fail =
      let out = copy_document api cluster collection w primary node shard id in
      elim (out.1)
          as (λ b.
            CopyDone w id (out.0) b
            → Copied w (id ∷ ids) rep fail (elim b [
              | true ↦
                  copy_documents api cluster collection (out.0) primary node shard ids
                    (rep ++ (id ∷ [])) fail
              | false ↦
                  copy_documents api cluster collection (out.0) primary node shard ids rep
                    (fail ++ (id ∷ []))
            ])) [
              | true ↦ λ c.
                  Copied-step w (out.0) id ids rep fail true _ c
                    (copy_documents-Copied (out.0) ids (rep ++ (id ∷ [])) fail)
              | false ↦ λ c.
                  Copied-step w (out.0) id ids rep fail false _ c
                    (copy_documents-Copied (out.0) ids rep (fail ++ (id ∷ [])))
            ]
        (copy_document-CopyDone w id)

  -- Where the nodes keep their promises and the replica is not the primary, the copying of missing
  -- documents shares their ids out, in their order, between the repaired and the failed ones; the
  -- replica then holds the primary's document under each repaired id, no document on which the two
  -- agreed is lost, and nothing is changed but these documents of this replica.
  pub copy_documents-Repaired :
      (w : W) (ids : List Str)
      → (let out = copy_documents api cluster collection w primary node shard ids [] [] in
          Shared ids (out.1) (out.2)
          × ((d : Str) → is_among d (out.1) ≡ true → Agrees (out.0) d)
          × ((d : Str) → Agrees w d → Agrees (out.0) d)
          × ((m d : Str)
              → (str_eq node.id m && is_among d ids) ≡ false
              → laws.held (out.0) m d ≡ laws.held w m d))
  copy_documents-Repaired w ids =
      let c = copy_documents-Copied w ids [] [] in
      (
        subst
            (λ r.
              Shared ids r (copy_documents api cluster collection w primary node shard ids [] []).2)
            (sym (c.lists.0)) (subst (Shared ids c.repaired) (sym (c.lists.1)) c.shared),
        λ d h. c.agree d (subst (λ r. is_among d r ≡ true) (c.lists.0) h),
        c.stays,
        c.others,
      )
