-- ===== src/PackageGraph/Closure/Reached.antt =====
-- What the closure of a set of packages holds (crates/luchta-workspace/src/package_graph.rs).
use luchta.Prelude.{
  ℕ, ◌≡◌, refl, sym, subst, ap, ◌∙◌, inl, inr, ◌↔◌, some, some-injective, Option-cases,
  none_not_some, Result, ok, ok-injective, List, [], ◌∷◌, string_eq, nat_eq, map, In, In-map,
  map-In,
}
use luchta.Prelude.Maps.{Map, lookup, keys, length-keys}
use luchta.Petgraph.{Digraph, IsPetgraph}
use luchta.Types.{PackageName}
use luchta.PackageGraph.{PackageNode, PackageGraph, WorkspaceError, package_at}
use luchta.PackageGraph.Names.{package_names}
use luchta.PackageGraph.Edges.{Read, IsBuilt}
use luchta.PackageGraph.Depends.{
  Depends, Named, Named-name, Named-In, listed_of_Named, edge-Depends,
}
use luchta.PackageGraph.Neighbors.{Named-of_name}
use luchta.PackageGraph.Search.{push_front, explore, offer_all}
use luchta.PackageGraph.Search.Reach.{search-Reached}
use luchta.PackageGraph.Search.Offers.{Next}
use luchta.PackageGraph.Search.Chain.{Chain, Chain-simulated, push_front-IsPush}
use luchta.PackageGraph.Closure.{
  Direction, outgoing, incoming, seed_indices, neighbors_directed, transitive_neighbors,
}

In-seed_indices :
    (indices : Map PackageName ℕ) (seeds : List PackageName) (i : ℕ)
    → In i (seed_indices indices seeds)
      ↔ ((seed : PackageName) × In seed seeds × (lookup seed indices ≡ some i))
In-seed_indices indices [] i = (λ k. absurd k, λ (n, k, l). absurd k)
In-seed_indices indices (seed ∷ seeds) i = elim (Option-cases (lookup seed indices)) [
  | inl missing ↦
      rw (missing, seed_indices)
        (
          λ k. let (n, j, l) = (In-seed_indices indices seeds i).0 k in (n, inr j, l),
          λ (n, k, l). elim k [
            | inl q ↦
                absurd (none_not_some (sym missing ∙ (ap (λ m. lookup m indices) (sym q) ∙ l)))
            | inr j ↦ (In-seed_indices indices seeds i).1 (n, j, l)
          ],
        )
  | inr (index, found) ↦
      rw (found, seed_indices)
        (
          λ k. elim k [
            | inl q ↦ (seed, inl refl, found ∙ ap some (sym q))
            | inr j ↦ let (n, j', l) = (In-seed_indices indices seeds i).0 j in (n, inr j', l)
          ],
          λ (n, k, l). elim k [
            | inl q ↦ inl (some-injective i index (sym l ∙ (ap (λ m. lookup m indices) q ∙ found)))
            | inr j ↦ inr ((In-seed_indices indices seeds i).1 (n, j, l))
          ],
        )
]

-- One step in a direction, by names.
abbrev pub StepsTo : Direction → Read → List PackageNode → PackageName → PackageName → Type 0
StepsTo outgoing read packages n m = Depends read packages n m
StepsTo incoming read packages n m = Depends read packages m n

module _ (d : Digraph PackageNode) (laws : IsPetgraph d) (read : Read) (packages : List PackageNode)
    (g : PackageGraph d) (v : IsBuilt d laws read packages g) where
  abbrev next : Direction → ℕ → Result (List ℕ) WorkspaceError
  next direction = neighbors_directed d g.graph direction

  Next-Named :
      (direction : Direction) (a b : ℕ)
      → Next (next direction) a b ↔ (
          (n m : PackageName) × Named d laws read packages g v a n
          × Named d laws read packages g v b m
          × StepsTo direction read packages n m)
  Next-Named outgoing a b = (
    λ (found, q, i). (edge-Depends d laws read packages g v a b).0 (
        (laws.outgoing_iff g.graph a b).0
          (subst (In b) (sym (ok-injective (d.neighbors_outgoing g.graph a) found q)) i)),
    λ k. (
      d.neighbors_outgoing g.graph a,
      refl,
      (laws.outgoing_iff g.graph a b).1 ((edge-Depends d laws read packages g v a b).1 k),
    ),
  )
  Next-Named incoming a b = (
    λ (found, q, i).
        let (n, m, h, l, t) = (edge-Depends d laws read packages g v b a).0 (
          (laws.incoming_iff g.graph b a).0
            (subst (In b) (sym (ok-injective (d.neighbors_incoming g.graph a) found q)) i)) in
        (m, n, l, h, t),
    λ (n, m, h, l, t). (
      d.neighbors_incoming g.graph a,
      refl,
      (laws.incoming_iff g.graph b a).1
          ((edge-Depends d laws read packages g v b a).1 (m, n, l, h, t)),
    ),
  )

  next-ok : (direction : Direction) (a : ℕ) → (found : List ℕ) × (next direction a ≡ ok found)
  next-ok outgoing a = (d.neighbors_outgoing g.graph a, refl)
  next-ok incoming a = (d.neighbors_incoming g.graph a, refl)

  next-In :
      (direction : Direction) (a : ℕ)
      → In a (keys (d.node_references g.graph))
      → (found : List ℕ) × (next direction a ≡ ok found)
        × ((b : ℕ) → In b found → In b (keys (d.node_references g.graph)))
  next-In direction a i =
      let (found, q) = next-ok direction a in
      (
        found,
        q,
        λ b j.
            let (n, m, h, l, t) = (Next-Named direction a b).0 (found, q, j) in
            Named-In d laws read packages g v b m l,
      )

  Next-StepsTo :
      (direction : Direction) (a b : ℕ) (n : PackageName)
      → Next (next direction) a b
      → Named d laws read packages g v a n
      → (m : PackageName) × Named d laws read packages g v b m × StepsTo direction read packages n m
  Next-StepsTo direction a b n t h =
      let (n', m, h', l, s) = (Next-Named direction a b).0 t in
      let same : n' ≡ n =
        sym (Named-name d laws read packages g v a n' h')
        ∙ Named-name d laws read packages g v a n h in
      (m, l, subst (λ k. StepsTo direction read packages k m) same s)

  StepsTo-listed :
      (direction : Direction) (n m : PackageName)
      → StepsTo direction read packages n m
      → In m (package_names packages)
  StepsTo-listed outgoing n m (p, i, q, t, j) = j
  StepsTo-listed incoming n m (p, i, q, t, j) =
      subst (λ l. In l (package_names packages)) q
        (In-map (λ (p : PackageNode). p.name) p packages i)

  StepsTo-Next :
      (direction : Direction) (n m : PackageName) (a : ℕ)
      → StepsTo direction read packages n m
      → Named d laws read packages g v a n
      → (b : ℕ) × Named d laws read packages g v b m × Next (next direction) a b
  StepsTo-Next direction n m a s h =
      let (b, l) = Named-of_name d laws read packages g v m (StepsTo-listed direction n m s) in
      (b, l, (Next-Named direction a b).1 (n, m, h, l, s))

  pub transitive_neighbors-Chain :
      (seeds : List PackageName) (direction : Direction)
      → (names : List PackageName) × (transitive_neighbors d g seeds direction ≡ ok names)
        × ((m : PackageName)
            → In m names ↔ (
                (seed : PackageName) × In seed seeds
                × In seed (package_names packages)
                × Chain (StepsTo direction read packages) seed m))
  unfolding transitive_neighbors
  transitive_neighbors-Chain seeds direction =
      let nodes = d.node_references g.graph in
      let seeded = In-seed_indices g.indices_by_name seeds in
      let (visited, q, exact) =
        search-Reached push_front (next direction) push_front-IsPush (keys nodes)
          v.indexed.nodes_distinct (next-In direction) (seed_indices g.indices_by_name seeds)
          (λ i k. let (n, j, l) = (seeded i).0 k in Named-In d laws read packages g v i n l) in
      let name_at = λ (index : ℕ). (package_at d g.graph index).name in
      let q' =
        subst
          (λ fuel.
            explore push_front (next direction) fuel (
              offer_all push_front (next direction) (record { visited = []; pending = [] })
                (seed_indices g.indices_by_name seeds))
            ≡ ok visited)
          (length-keys nodes) q in
      (
        map name_at visited,
        rw q' refl,
        λ m. (
          λ i.
              let (a, j, e) = map-In name_at m visited i in
              let (b, k, c) = (exact a).0 j in
              let (seed, s, l) = (seeded b).0 k in
              let (m', l', c') =
                Chain-simulated (Named d laws read packages g v) (Next-StepsTo direction) c l in
              (
                seed,
                s,
                listed_of_Named d laws read packages g v b seed l,
                subst (Chain (StepsTo direction read packages) seed)
                    (sym (Named-name d laws read packages g v a m' l') ∙ sym e) c',
              ),
          λ (seed, s, listed, c).
              let (b, l) = Named-of_name d laws read packages g v seed listed in
              let (a, l', c') =
                Chain-simulated (λ n i. Named d laws read packages g v i n)
                  (λ n m a. StepsTo-Next direction n m a) c l in
              subst (λ z. In z (map name_at visited)) (Named-name d laws read packages g v a m l')
                (In-map name_at a visited ((exact a).1 (b, (seeded b).1 (seed, s, l), c'))),
        ),
      )
