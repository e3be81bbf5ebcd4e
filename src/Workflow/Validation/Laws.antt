-- ===== src/Workflow/Validation/Laws.antt =====
-- What a workflow without problems is.
use aiautotest.Common.{
  ◌≤◌, Bool, true, false, Option, none, some, List, [], ◌∷◌, ◌++◌, Text, text_eq, text_eq_iff,
  text_eq_refl, contains, map, is_empty_text, trim, IsDistinct, All, arith, ◌≡◌, refl, sym, ap,
  subst, ◌∙◌, Bool-cases, inl, inr, is_some, lookup,
}
use aiautotest.Workflow.Contract.{
  Node, Edge, NodeKind, Workflow, node, is_boolean, http_request, extract_variable, assert, delay,
  condition, loop,
}
use aiautotest.Workflow.Degrees.{Degrees}
use aiautotest.Workflow.Validation.Checks.{
  Problem, when, is_operator, kind_problems, loop_problems, produced_after, duplicate_node,
}
use aiautotest.Workflow.Validation.{
  position_le, when_node_problems, id_problems, edge_problems, nodes_problems, insert_node,
  order_nodes, branch_problems,
}

pub append-empty : {A : Type 0} (xs ys : List A) → xs ++ ys ≡ [] → (xs ≡ []) × (ys ≡ [])
append-empty [] ys e = (refl, e)
append-empty (x ∷ xs) ys e = ground (arith, e)

when-empty : (b : Bool) (p : Problem) → when b p ≡ [] → b ≡ false
when-empty true p e = ground (arith, e)
when-empty false p e = refl

id_problems-fresh :
    (seen ids : List Text)
    → id_problems seen ids ≡ []
    → (t : Text) → contains t seen ≡ true
    → contains t ids ≡ false
unfolding id_problems contains
id_problems-fresh seen [] e t c = refl
id_problems-fresh seen (id ∷ ids) e t c =
    let (here, rest) =
      append-empty (when (contains id seen) (duplicate_node id)) (id_problems (id ∷ seen) ids) e in
    let new = when-empty (contains id seen) (duplicate_node id) here in
    let deeper = id_problems-fresh (id ∷ seen) ids rest t (ground (arith, c)) in
    elim (Bool-cases (text_eq id t)) [
      | inl same ↦
          let clash = sym new ∙ ap (λ x. contains x seen) ((text_eq_iff id t).0 same) ∙ c in
          ground (arith, clash)
      | inr differ ↦ rw differ deeper
    ]

pub id_problems-IsDistinct : (seen ids : List Text) → id_problems seen ids ≡ [] → IsDistinct ids
unfolding id_problems contains
id_problems-IsDistinct seen [] e = tt
id_problems-IsDistinct seen (id ∷ ids) e =
    let rest =
      (append-empty (when (contains id seen) (duplicate_node id)) (id_problems (id ∷ seen) ids)
        e).1 in
    (
      id_problems-fresh (id ∷ seen) ids rest id (ground (arith, text_eq_refl id)),
      id_problems-IsDistinct (id ∷ seen) ids rest,
    )

-- Both ends of an edge are nodes.
abbrev pub IsJoined : List Text → Edge → Type 0
IsJoined ids e = (contains e.source ids ≡ true) × (contains e.target ids ≡ true)

pub edge_problems-IsJoined :
    (ids : List Text) (seen es : List Edge) → edge_problems ids seen es ≡ [] → All (IsJoined ids) es
unfolding edge_problems
edge_problems-IsJoined ids seen [] e = tt
edge_problems-IsJoined ids seen (x ∷ es) e =
    (ground (arith, e), edge_problems-IsJoined ids (x ∷ seen) es (ground (arith, e)))

module _ {N : Type 0} where
  -- What the checks ask of a node, its references apart.
  abbrev pub IsSound : List Text → NodeKind N → Type 0
  IsSound ids (http_request c) =
      (is_empty_text (trim c.method) ≡ false) × (is_empty_text (trim c.path) ≡ false)
  IsSound ids (extract_variable c) = is_empty_text (trim c.name) ≡ false
  IsSound ids (assert c) = is_operator c.operator ≡ true
  IsSound ids (condition c) = is_operator c.operator ≡ true
  IsSound ids (delay ms) = ms ≤ 300000
  IsSound ids (loop c) =
      (contains c.body_start ids ≡ true)
      × (contains c.body_end ids ≡ true)
      × (1 ≤ c.max_iterations)
      × (is_empty_text (trim c.item) ≡ false)

  kind_problems-IsSound :
      (w : Workflow N) (ids : List Text) (order : Degrees) (produced : List Text) (id : Text)
      (kind : NodeKind N)
      → kind_problems w ids order produced id kind ≡ []
      → IsSound ids kind
  unfolding kind_problems loop_problems
  kind_problems-IsSound w ids order produced id (http_request c) e = ground (arith, e)
  kind_problems-IsSound w ids order produced id (extract_variable c) e = ground (arith, e)
  kind_problems-IsSound w ids order produced id (assert c) e = ground (arith, e)
  kind_problems-IsSound w ids order produced id (condition c) e = ground (arith, e)
  kind_problems-IsSound w ids order produced id (delay ms) e = ground (arith, e)
  kind_problems-IsSound w ids order produced id (loop c) e = ground (arith, e)

  pub nodes_problems-IsSound :
      (w : Workflow N) (order : Degrees) (produced : List Text) (ns : List (Node N))
      → nodes_problems w order produced ns ≡ []
      → All (λ n. IsSound (map Node.id w.nodes) n.kind) ns
  unfolding nodes_problems
  nodes_problems-IsSound w order produced [] e = tt
  nodes_problems-IsSound w order produced (n ∷ ns) e =
      let ids = map Node.id w.nodes in
      let (here, rest) =
        append-empty (kind_problems w ids order produced n.id n.kind)
          (nodes_problems w order (produced_after produced n.kind) ns) e in
      (
        kind_problems-IsSound w ids order produced n.id n.kind here,
        nodes_problems-IsSound w order (produced_after produced n.kind) ns rest,
      )

  node_first :
      (order : Degrees) (n m : Node N) (ns : List (Node N))
      → position_le (lookup n.id order) (lookup m.id order) ≡ true
      → insert_node order n (m ∷ ns) ≡ n ∷ m ∷ ns
  unfolding insert_node
  node_first order n m ns e = rw e refl

  node_later :
      (order : Degrees) (n m : Node N) (ns : List (Node N))
      → position_le (lookup n.id order) (lookup m.id order) ≡ false
      → insert_node order n (m ∷ ns) ≡ m ∷ insert_node order n ns
  unfolding insert_node
  node_later order n m ns e = rw e refl

  All-insert_node :
      (P : Node N → Type 0) (order : Degrees) (n : Node N) (ns : List (Node N))
      → All P (insert_node order n ns)
      → P n × All P ns
  unfolding insert_node
  All-insert_node P order n [] h = (h.0, tt)
  All-insert_node P order n (m ∷ ns) h =
      elim (Bool-cases (position_le (lookup n.id order) (lookup m.id order))) [
        | inl e ↦ subst (All P) (node_first order n m ns e) h
        | inr e ↦
            let later = subst (All P) (node_later order n m ns e) h in
            let (here, rest) = All-insert_node P order n ns later.1 in (here, (later.0, rest))
      ]

  pub All-order_nodes :
      (P : Node N → Type 0) (order : Degrees) (ns : List (Node N))
      → All P (order_nodes order ns)
      → All P ns
  unfolding order_nodes
  All-order_nodes P order [] h = tt
  All-order_nodes P order (n ∷ ns) h =
      let (here, rest) = All-insert_node P order n (order_nodes order ns) h in
      (here, All-order_nodes P order ns rest)

  -- A branch label stands only at an edge from a condition or an assert.
  abbrev pub IsBranch : Workflow N → Edge → Type 0
  IsBranch w e =
      (n : Node N) → node w e.source ≡ some n → is_some e.when ≡ true → is_boolean n.kind ≡ true

  when_node_problems-IsBranch :
      (e : Edge) (label : Option Text) (found : Option (Node N))
      → when_node_problems e label found ≡ []
      → (n : Node N) → found ≡ some n
      → is_some label ≡ true
      → is_boolean n.kind ≡ true
  unfolding when_node_problems is_boolean
  when_node_problems-IsBranch e none found h n q r = ground (arith, r)
  when_node_problems-IsBranch e (some label) none h n q r = ground (arith, q)
  when_node_problems-IsBranch e (some label) (some m) h n q r = ground (arith, h, q)

  pub branch_problems-IsBranch :
      (w : Workflow N) (es : List Edge) → branch_problems w es ≡ [] → All (IsBranch w) es
  unfolding branch_problems
  branch_problems-IsBranch w [] h = tt
  branch_problems-IsBranch w (e ∷ es) h =
      let (here, rest) =
        append-empty (when_node_problems e e.when (node w e.source)) (branch_problems w es) h in
      (
        when_node_problems-IsBranch e e.when (node w e.source) here,
        branch_problems-IsBranch w es rest,
      )
