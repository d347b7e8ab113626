-- ===== src/Pool/Rotation.antt =====
-- pkg/pool/pool.go: without weights, `Get` takes the healthy nodes in turn.
use go_es.Prelude.{
  ℕ, zero, suc, ◌≡◌, refl, ap, false, List, [], ◌∷◌, ◌++◌, All, length, List-cases, ◌∙◌, inl, inr,
  arith, ◌∙◌,
}
use go_es.Pool.{
  Pool, PoolNode, is_weighted, healthy_nodes, without_first, first_healthy, move_first_to_end, get,
}
use mathlib.Core.List.{append_assoc}
use go_es.Pool.Health.{IsSound, get-IsSound}

-- The first of a list at its end.
abbrev pub rotated : List PoolNode → List PoolNode
rotated [] = []
rotated (n ∷ ns) = ns ++ (n ∷ [])

healthy_nodes-append :
    (ms ns : List PoolNode) → healthy_nodes (ms ++ ns) ≡ healthy_nodes ms ++ healthy_nodes ns
unfolding healthy_nodes
healthy_nodes-append [] ns = refl
healthy_nodes-append (m ∷ ms) ns = ground (arith, healthy_nodes-append ms ns)

moved :
    (ns : List PoolNode)
    → All IsSound ns
    → healthy_nodes (without_first ns) ++ healthy_nodes (first_healthy ns)
      ≡ rotated (healthy_nodes ns)
unfolding healthy_nodes without_first first_healthy
moved [] h = refl
moved (n ∷ ns) h = ground (arith, moved ns h.1, h.0.connected)

moves :
    (n m : PoolNode) (ns : List PoolNode)
    → move_first_to_end (n ∷ m ∷ ns) ≡ without_first (n ∷ m ∷ ns) ++ first_healthy (n ∷ m ∷ ns)
unfolding move_first_to_end
moves n m ns = ground arith

healthy_nodes-move_first_to_end :
    (ns : List PoolNode)
    → All IsSound ns
    → healthy_nodes (move_first_to_end ns) ≡ rotated (healthy_nodes ns)
healthy_nodes-move_first_to_end [] h = unfold move_first_to_end healthy_nodes in refl
healthy_nodes-move_first_to_end (n ∷ []) h = unfold move_first_to_end healthy_nodes in ground arith
healthy_nodes-move_first_to_end (n ∷ m ∷ ns) h =
    ap healthy_nodes (moves n m ns)
    ∙ healthy_nodes-append (without_first (n ∷ m ∷ ns)) (first_healthy (n ∷ m ∷ ns))
    ∙ moved (n ∷ m ∷ ns) h

-- One call of `Get`, and the healthy nodes after it.
get-rotates :
    (p : Pool)
    → is_weighted p.config ≡ false
    → All IsSound p.nodes
    → healthy_nodes (get p).0.nodes ≡ rotated (healthy_nodes p.nodes)
unfolding get
get-rotates p w h = elim (List-cases (healthy_nodes p.nodes)) [
  | inl e ↦ rw (e, get) e
  | inr (n, ns, e) ↦ ground (arith, e, w, healthy_nodes-move_first_to_end p.nodes h)
]

-- The pool after some calls of `Get`.
unfoldable pub after_gets : ℕ → Pool → Pool
after_gets zero p = p
after_gets (suc k) p = after_gets k (get p).0

get_config : (p : Pool) → (get p).0.config ≡ p.config
unfolding get
get_config p = ground arith

get_first :
    (p : Pool) (n : PoolNode) (ns : List PoolNode)
    → is_weighted p.config ≡ false
    → healthy_nodes p.nodes ≡ n ∷ ns
    → (get p).1 ≡ inr n.client
unfolding get
get_first p n ns w e = ground (arith, e, w)

-- A list shown in two parts is served in that order.
serves :
    (k : ℕ) (p : Pool) (front : List PoolNode) (n : PoolNode) (back : List PoolNode)
    → length front ≡ k
    → is_weighted p.config ≡ false
    → All IsSound p.nodes
    → healthy_nodes p.nodes ≡ front ++ (n ∷ back)
    → (get (after_gets k p)).1 ≡ inr n.client
unfolding after_gets
serves zero p [] n back l w h e = get_first p n back w e
serves (suc k) p [] n back l w h e = absurd (omega arith)
serves zero p (m ∷ front) n back l w h e = absurd (omega arith)
serves (suc k) p (m ∷ front) n back l w h e =
    serves k (get p).0 front n (back ++ (m ∷ [])) (omega arith) (ap is_weighted (get_config p) ∙ w)
      (get-IsSound p h) (get-rotates p w h ∙ ap rotated e ∙ append_assoc front (n ∷ back) (m ∷ []))

-- Where the weights are not used, the next calls of `Get` serve the nodes that are healthy now in
-- their order: if `front` are the healthy nodes before the healthy node `n`, then after as many
-- calls as `front` has nodes the next call returns the client of `n`. So each healthy node is
-- served within as many calls as there are healthy nodes.
pub get-serves_each :
    (p : Pool) (front : List PoolNode) (n : PoolNode) (back : List PoolNode)
    → is_weighted p.config ≡ false
    → All IsSound p.nodes
    → healthy_nodes p.nodes ≡ front ++ (n ∷ back)
    → (get (after_gets (length front) p)).1 ≡ inr n.client
get-serves_each p front n back w h e = serves (length front) p front n back refl w h e
