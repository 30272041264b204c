-- ===== src/TaskGraph/Upstream/Meaning.antt =====
-- What it means to be upstream (crates/luchta-engine/src/task_graph.rs).
use luchta.Prelude.{
  ℕ, ◌≡◌, ◌≢◌, refl, sym, subst, ap, ◌∙◌, inl, inr, ◌↔◌, true, false, Result, ok, err, bind-ok,
  ok-injective, err_not_ok, List, [], ◌∷◌, string_eq, ◌==◌, eq_of_beq, differs_of_beq, contains-In,
  In-contains, any, In, In-map, length, Distinct, Bool-cases, arith,
}
use luchta.Prelude.Maps.{values}
use luchta.Petgraph.{Digraph, IsPetgraph}
use luchta.Types.{PackageName, TaskId}
use luchta.PackageGraph.{PackageNode, PackageGraph, WorkspaceError, dependencies_of}
use luchta.PackageGraph.Names.{package_names}
use luchta.PackageGraph.Edges.{Read, IsBuilt}
use luchta.PackageGraph.Depends.{Depends}
use luchta.PackageGraph.Neighbors.{dependencies_of-Finds, dependencies_of_unknown}
use luchta.PackageGraph.Search.{push_back, explore, offer_all}
use luchta.PackageGraph.Search.Reach.{search-Reached}
use luchta.PackageGraph.Search.Offers.{Next}
use luchta.PackageGraph.Search.Chain.{Chain, Chain-simulated, push_back-IsPush}
use luchta.TaskGraph.Upstream.{
  dependency_names, transitive_upstream_packages, upstream_source_package, is_direct_upstream,
  is_transitive_upstream,
}

-- One dependency or more away.
abbrev pub Upstream : Read → List PackageNode → PackageName → PackageName → Type 0
Upstream read packages n m =
    (first : PackageName) × Depends read packages n first × Chain (Depends read packages) first m

module _ (d : Digraph PackageNode) (laws : IsPetgraph d) (read : Read) (packages : List PackageNode)
    (g : PackageGraph d) (v : IsBuilt d laws read packages g)
    (distinct : Distinct (package_names packages)) where
  dependency_names-ok :
      (n : PackageName)
      → In n (package_names packages)
      → (names : List PackageName) × (dependency_names d g n ≡ ok names)
        × ((m : PackageName) → In m names ↔ Depends read packages n m)
  unfolding dependency_names
  dependency_names-ok n i =
      let (nodes, q, exact) = dependencies_of-Finds d laws read packages g v n i in
      (package_names nodes, rw q refl, exact)

  dependency_names_known :
      (n : PackageName) (names : List PackageName)
      → dependency_names d g n ≡ ok names
      → In n (package_names packages)
  unfolding dependency_names
  dependency_names_known n names h =
      let (nodes, q, h') = bind-ok (dependencies_of d g n) _ names h in
      dependencies_of_unknown d laws read packages g v n nodes q

  Depends-source : (n m : PackageName) → Depends read packages n m → In n (package_names packages)
  Depends-source n m (p, i, q, t, k) =
      subst (λ l. In l (package_names packages)) q
        (In-map (λ (p : PackageNode). p.name) p packages i)

  Next-Depends : (n m : PackageName) → Next (dependency_names d g) n m ↔ Depends read packages n m
  Next-Depends n m = (
    λ (found, q, i).
        let (names, r, exact) = dependency_names-ok n (dependency_names_known n found q) in
        (exact m).0 (subst (In m) (ok-injective found names (sym q ∙ r)) i),
    λ t.
        let (names, r, exact) = dependency_names-ok n (Depends-source n m t) in
        (names, r, (exact m).1 t),
  )

  Chain-Depends :
      (n m : PackageName)
      → Chain (Next (dependency_names d g)) n m ↔ Chain (Depends read packages) n m
  Chain-Depends n m = (
    λ c.
        let (k, q, r) =
          Chain-simulated (λ (a b : PackageName). a ≡ b)
            (λ a b n t e.
              (b, refl, subst (λ z. Depends read packages z b) e ((Next-Depends a b).0 t)))
            c refl in
        subst (Chain (Depends read packages) n) (sym q) r,
    λ c.
        let (k, q, r) =
          Chain-simulated (λ (a b : PackageName). a ≡ b)
            (λ a b n t e.
              (b, refl, subst (λ z. Next (dependency_names d g) z b) e ((Next-Depends a b).1 t)))
            c refl in
        subst (Chain (Next (dependency_names d g)) n) (sym q) r,
  )

  pub transitive_upstream_packages-Upstream :
      (n : PackageName)
      → In n (package_names packages)
      → (names : List PackageName) × (transitive_upstream_packages d g n ≡ ok names)
        × ((m : PackageName) → In m names ↔ Upstream read packages n m)
  unfolding transitive_upstream_packages
  transitive_upstream_packages-Upstream n i =
      let (first, q, exact) = dependency_names-ok n i in
      let (visited, r, reached) =
        search-Reached push_back (dependency_names d g) push_back-IsPush (package_names packages)
          distinct
          (λ a j.
            let (names, s, exact') = dependency_names-ok a j in
            (names, s, λ b k. ((exact' b).0 k).4))
          first (λ b j. ((exact b).0 j).4) in
      let size : length (package_names packages) ≡ length (d.node_references g.graph) =
        ap (λ l. length (package_names l)) (sym v.listed)
        ∙ length-names (d.node_references g.graph) in
      let r' =
        subst
          (λ fuel.
            explore push_back (dependency_names d g) fuel (
              offer_all push_back (dependency_names d g) (record { visited = []; pending = [] })
                first)
            ≡ ok visited)
          size r in
      (
        visited,
        rw (q) r',
        λ m. (
          λ j. let (b, k, c) = (reached m).0 j in (b, (exact b).0 k, (Chain-Depends b m).0 c),
          λ (b, t, c). (reached m).1 (b, (exact b).1 t, (Chain-Depends b m).1 c),
        ),
      )
    where
      length-names : (l : List (ℕ × PackageNode)) → length (package_names (values l)) ≡ length l
      length-names [] = refl
      length-names (x ∷ l) = omega (arith, length-names l)

  -- An upstream package is a package of the workspace, and so is what is upstream of.
  Upstream-source : (n m : PackageName) → Upstream read packages n m → In n (package_names packages)
  Upstream-source n m (first, t, c) = Depends-source n first t

  upstream_packages_known :
      (n : PackageName) (names : List PackageName)
      → transitive_upstream_packages d g n ≡ ok names
      → In n (package_names packages)
  unfolding transitive_upstream_packages
  upstream_packages_known n names h =
      let (first, q, h') = bind-ok (dependency_names d g n) _ names h in
      dependency_names_known n first q

  any-names :
      (pkg : PackageName) (nodes : List PackageNode)
      → (any (λ (p : PackageNode). p.name == pkg) nodes ≡ true) ↔ In pkg (package_names nodes)
  any-names pkg [] = (λ h. cc, λ i. absurd i)
  any-names pkg (p ∷ nodes) = elim (Bool-cases (p.name == pkg)) [
    | inl same ↦ rw same (λ h. inl (sym (eq_of_beq p.name pkg same)), λ i. refl)
    | inr other ↦ rw other (
      λ h. inr ((any-names pkg nodes).0 h),
      λ i. elim i [
        | inl q ↦ absurd (differs_of_beq p.name pkg other (sym q))
        | inr k ↦ (any-names pkg nodes).1 k
      ],
    )
  ]

  module _ (root_package : PackageName) (source dependency : TaskId) where
    abbrev from : PackageName
    from = upstream_source_package d g source

    -- The packages that the name depends on; for a name of no package there are none.
    direct_test :
        (found : Result (List PackageNode) WorkspaceError)
        → dependencies_of d g from ≡ found
        → ((elim found [
          | ok dependencies ↦ any (λ (p : PackageNode). p.name == dependency.pkg) dependencies
          | err e ↦ false
        ])
            ≡ true)
          ↔ Depends read packages from dependency.pkg
    direct_test (ok nodes) q =
        let (nodes', q', exact) =
          dependencies_of-Finds d laws read packages g v from
            (dependencies_of_unknown d laws read packages g v from nodes q) in
        let same = ok-injective nodes nodes' (sym q ∙ q') in
        (
          λ h. (exact dependency.pkg).0 (
              subst (λ l. In dependency.pkg (package_names l)) same
                ((any-names dependency.pkg nodes).0 h)),
          λ t. (any-names dependency.pkg nodes).1 (
              subst (λ l. In dependency.pkg (package_names l)) (sym same)
                ((exact dependency.pkg).1 t)),
        )
    direct_test (err e) q = (
      λ h. cc,
      λ t.
          let (nodes, q', exact) =
            dependencies_of-Finds d laws read packages g v from
              (Depends-source from dependency.pkg t) in
          absurd (err_not_ok (sym q ∙ q')),
    )

    pub is_direct_upstream-Depends :
        (is_direct_upstream d g root_package source dependency ≡ true)
        ↔ ((dependency.pkg ≢ root_package) × Depends read packages from dependency.pkg)
    unfolding is_direct_upstream
    is_direct_upstream-Depends = elim (Bool-cases (dependency.pkg == root_package)) [
      | inl same ↦
          rw same (
            λ h. absurd (clash h),
            λ (n, t). absurd (n (eq_of_beq dependency.pkg root_package same)),
          )
      | inr other ↦
          let test = direct_test (dependencies_of d g from) refl in
          rw other
            (λ h. (differs_of_beq dependency.pkg root_package other, test.0 h), λ (n, t). test.1 t)
    ]
      where
        clash : false ≡ true → ⊥
        clash h = cc

    transitive_test :
        (found : Result (List PackageName) WorkspaceError)
        → transitive_upstream_packages d g from ≡ found
        → ((elim found [ ok names ↦ any (λ name. name == dependency.pkg) names | err e ↦ false ])
            ≡ true)
          ↔ Upstream read packages from dependency.pkg
    transitive_test (ok names) q =
        let (names', q', exact) =
          transitive_upstream_packages-Upstream from (upstream_packages_known from names q) in
        let same = ok-injective names names' (sym q ∙ q') in
        (
          λ h.
              (exact dependency.pkg).0
                (subst (In dependency.pkg) same (contains-In dependency.pkg names h)),
          λ t.
              In-contains dependency.pkg names
                (subst (In dependency.pkg) (sym same) ((exact dependency.pkg).1 t)),
        )
    transitive_test (err e) q = (
      λ h. cc,
      λ t.
          let (names, q', exact) =
            transitive_upstream_packages-Upstream from (Upstream-source from dependency.pkg t) in
          absurd (err_not_ok (sym q ∙ q')),
    )

    pub is_transitive_upstream-Upstream :
        (is_transitive_upstream d g root_package source dependency ≡ true)
        ↔ ((dependency.pkg ≢ root_package) × Upstream read packages from dependency.pkg)
    unfolding is_transitive_upstream
    is_transitive_upstream-Upstream = elim (Bool-cases (dependency.pkg == root_package)) [
      | inl same ↦
          rw same (
            λ h. absurd (clash h),
            λ (n, t). absurd (n (eq_of_beq dependency.pkg root_package same)),
          )
      | inr other ↦
          let test = transitive_test (transitive_upstream_packages d g from) refl in
          rw other
            (λ h. (differs_of_beq dependency.pkg root_package other, test.0 h), λ (n, t). test.1 t)
    ]
      where
        clash : false ≡ true → ⊥
        clash h = cc
